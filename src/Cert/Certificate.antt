-- ===== src/Cert/Certificate.antt =====
-- pkg/cert/certificate.go: the four files of a certificate. What the crypto libraries do is a
-- parameter; a file system is a map from names to contents.
pub mod Files
use cluster_registry_control.Common.{
  ℕ, String, Bool, true, false, not, ◌&&◌, ◌||◌, Option, none, some, List, [], ◌∷◌, Map, get, put,
  is_some, is_empty, if◌then◌else◌,
}

abbrev pub ca_certificate_file_name : String
ca_certificate_file_name = "ca.crt"

abbrev pub ca_private_key_file_name : String
ca_private_key_file_name = "ca.key"

abbrev pub server_certificate_file_name : String
server_certificate_file_name = "tls.crt"

abbrev pub server_private_key_file_name : String
server_private_key_file_name = "tls.key"

-- `none` is a nil slice.
pub record Certificate : Type 0 where
  pub ca_certificate : Option String
  pub ca_private_key : Option String
  pub server_certificate : Option String
  pub server_private_key : Option String

-- What is asked of `x509.CreateCertificate`.
pub record Template : Type 0 where
  pub common_name : String
  pub dns_names : List String
  pub serial_number : ℕ
  pub is_ca : Bool

-- The file system and the crypto libraries: keys and signed certificates are texts.
pub record CertEnv : Type 0 where
  pub makes_directory : Bool
  pub writes_file : String → Bool
  pub reads_file : String → Bool
  pub generate_key : ℕ → Option String
  pub encode_key : String → Option String
  pub create_certificate : Template → Template → String → String → Option String
  pub encode_certificate : String → Option String
  pub is_key_pair : String → String → Bool
  pub is_pool : String → Bool
  pub decode : String → Option String
  pub parses : String → Bool
  pub is_signed_for : String → String → String → ℕ → Bool  -- name, block, pool, time
  pub in_six_months : ℕ → ℕ  -- `AddDate(0, 6, 0)`

abbrev pub common_name_of : List String → String
common_name_of [] = "unspecified"
common_name_of (name ∷ names) = name

abbrev pub ca_template : List String → Template
ca_template names = record {
  common_name = common_name_of names;
  dns_names = [];
  serial_number = 2020;
  is_ca = true;
}

abbrev pub server_template : List String → Template
server_template names = record {
  common_name = common_name_of names;
  dns_names = names;
  serial_number = 1658;
  is_ca = false;
}

-- A failed encoding of the key or of the certificate wraps a nil error, which is no error: then nil
-- is returned for both.
pub data NewAnswer : Type 0 where
  made : Certificate → NewAnswer
  nil_without_error new_failed : NewAnswer

-- A step that ends with an error, or with nil where the encoding fails.
unfoldable pub or_failed : Option String → (String → NewAnswer) → NewAnswer
or_failed none f = new_failed
or_failed (some s) f = f s

unfoldable pub or_nil : Option String → (String → NewAnswer) → NewAnswer
or_nil none f = nil_without_error
or_nil (some s) f = f s

module _ (e : CertEnv) where
  -- `NewCertificate`.
  unfoldable pub new_certificate : List String → NewAnswer
  new_certificate names = or_failed (e.generate_key 2048) (λ ca_key.
      or_nil (e.encode_key ca_key) (λ ca_key_text.
        or_failed (e.create_certificate (ca_template names) (ca_template names) ca_key ca_key)
          (λ ca. or_nil (e.encode_certificate ca) (λ ca_text.
            or_failed (e.generate_key 4096) (λ key. or_nil (e.encode_key key) (λ key_text.
              or_failed
                (e.create_certificate (server_template names) (ca_template names) key ca_key)
                (λ server. or_nil (e.encode_certificate server) (λ server_text. made (record {
                  ca_certificate = some ca_text;
                  ca_private_key = some ca_key_text;
                  server_certificate = some server_text;
                  server_private_key = some key_text;
                })))))))))

  -- `os.ReadFile`.
  abbrev pub read_file : String → Map String → Option String
  read_file name dir = if e.reads_file name then get name dir else none

  -- `NewCertificateFromDirectory`; `none` is an error, and all files are read before it is returned.
  unfoldable pub new_certificate_from_directory : Map String → Option Certificate
  new_certificate_from_directory dir =
      let c : Certificate = record {
        ca_certificate = read_file ca_certificate_file_name dir;
        ca_private_key = read_file ca_private_key_file_name dir;
        server_certificate = read_file server_certificate_file_name dir;
        server_private_key = read_file server_private_key_file_name dir;
      } in
      if is_some c.ca_certificate
        && is_some c.ca_private_key
        && is_some c.server_certificate
        && is_some c.server_private_key
      then some c
      else none

  -- `Verify`, for a DNS name and a time; `none` is the nil certificate.
  unfoldable pub verify : Option Certificate → String → ℕ → Bool
  verify none name time = false
  verify (some c) name time = elim c.ca_certificate [
    | none ↦ false
    | some ca ↦ elim c.server_private_key [
      | none ↦ false
      | some key ↦ elim c.server_certificate [
        | none ↦ false
        | some server ↦
            if not (e.is_key_pair server key)
            then false
            else if not (e.is_pool ca)
            then false
            else elim (e.decode server) [
              | none ↦ false
              | some block ↦
                  if not (e.parses block) then false else e.is_signed_for name block ca time
            ]
      ]
    ]
  ]

  -- The content that is written for a slice: nothing for nil.
  abbrev pub content_of : Option String → String
  content_of none = ""
  content_of (some s) = s

  -- The loop of `Write`, which ends at the first error: the files afterwards, and whether all are
  -- written.
  unfoldable pub write_files : List (String × Option String) → Map String → Map String × Bool
  write_files [] dir = (dir, true)
  write_files ((name, content) ∷ rest) dir =
      let after = write_files rest (put name (content_of content) dir) in
      if e.writes_file name then after else (dir, false)

  unfoldable pub write : Option Certificate → Map String → Map String × Bool
  unfolding write_files
  write none dir = (dir, false)
  write (some c) dir =
      if not e.makes_directory
      then (dir, false)
      else write_files
          ((ca_certificate_file_name, c.ca_certificate)
            ∷ (ca_private_key_file_name, c.ca_private_key)
            ∷ (server_certificate_file_name, c.server_certificate)
            ∷ (server_private_key_file_name, c.server_private_key)
            ∷ [])
          dir
