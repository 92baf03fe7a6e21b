-- ===== src/Cert/Certificate/Files.antt =====
-- A certificate of pkg/cert/certificate.go that is written is the one that is read.
use cluster_registry_control.Common.{String, ◌≡◌, refl, true, some, Map, get-put}
use cluster_registry_control.Cert.Certificate.{
  Certificate, CertEnv, new_certificate_from_directory, write, write_files,
}

-- If the directory can be made and every file can be written and read, a certificate with all four
-- parts is read as it was written, whatever the directory held.
pub read-write :
    (e : CertEnv) (a b c d : String) (dir : Map String)
    → e.makes_directory ≡ true
    → ((name : String) → e.writes_file name ≡ true)
    → ((name : String) → e.reads_file name ≡ true)
    → let certificate : Certificate = record {
      ca_certificate = some a;
      ca_private_key = some b;
      server_certificate = some c;
      server_private_key = some d;
    } in
      let (dir', done) = write e (some certificate) dir in
      (done ≡ true) × (new_certificate_from_directory e dir' ≡ some certificate)
unfolding write write_files new_certificate_from_directory
read-write e a b c d dir m w r =
    simp (m, w, r, get-put, new_certificate_from_directory, write) (refl, refl)
