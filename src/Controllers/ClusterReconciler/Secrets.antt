-- ===== src/Controllers/ClusterReconciler/Secrets.antt =====
-- The secret that pkg/util/cluster_secret.go makes, as getK8SConfigForCluster of
-- controllers/cluster_reconciler.go reads it.
use mathlib.Core.Path.{subst}
use cluster_registry_control.Common.{
  String, ◌≡◌, refl, inl, inr, Option, some, get, Option-cases, Result-cases, ok, ok_eq, not_both,
}
use cluster_registry_control.Api.Cluster.{ClusterResource, secret_type, kubeconfig_key}
use cluster_registry_control.Util.ReaderSecret.{
  SecretEnv, ReaderSecret, get_reader_secret_token_and_ca_cert, choose_address, choose_ca_data,
  or_empty, could_not_make_kubeconfig, get_reader_secret_for_cluster,
}
use cluster_registry_control.Controllers.ClusterReconciler.{ClusterEnv}
use cluster_registry_control.Controllers.ClusterReconciler.Remote.{get_k8s_config_for_cluster}

-- What a made secret is: it stands under the reference of the resource, with the registry's type, and
-- has the kubeconfig for a token of the account under the key that the reconciler reads.
record IsFor (se : SecretEnv) (cluster : ClusterResource) (account configured : String)
    (s : ReaderSecret) : Type 0 where
  named : s.name ≡ cluster.spec.secret_name
  placed : s.namespace ≡ cluster.spec.secret_namespace
  typed : s.type ≡ secret_type
  token : Option String
  ca : Option String
  kubeconfig : String
  taken : get_reader_secret_token_and_ca_cert se account ≡ ok (token, ca)
  made :
      se.make_kubeconfig cluster.name account
        (choose_address se cluster configured)
        (choose_ca_data se cluster (or_empty ca))
        (or_empty token)
      ≡ some kubeconfig
  kept : get kubeconfig_key s.data_map ≡ some kubeconfig

reader_secret-IsFor :
    (se : SecretEnv) (cluster : ClusterResource) (account configured : String) (s : ReaderSecret)
    → get_reader_secret_for_cluster se cluster account configured ≡ ok s
    → IsFor se cluster account configured s
unfolding get_reader_secret_for_cluster get
reader_secret-IsFor se cluster account configured s q =
    elim (Result-cases (get_reader_secret_token_and_ca_cert se account)) [
      | inr (x, n) ↦ absurd (not_both {x = x} q (rw (n, get_reader_secret_for_cluster) refl))
      | inl ((token, ca), n) ↦
          let address = choose_address se cluster configured in
          let bundle = choose_ca_data se cluster (or_empty ca) in
          elim (Option-cases
            (se.make_kubeconfig cluster.name account address bundle (or_empty token))) [
              | inl m ↦ absurd (
                  not_both {x = could_not_make_kubeconfig} q
                    (rw (n, m, get_reader_secret_for_cluster) refl))
              | inr (text, m) ↦
                  subst (IsFor se cluster account configured)
                    (ok_eq refl (rw (n, m, get_reader_secret_for_cluster) at q))
                    (record {
                      named = refl;
                      placed = refl;
                      typed = refl;
                      token = token;
                      ca = ca;
                      kubeconfig = text;
                      taken = n;
                      made = m;
                      kept = refl;
                    })
            ]
    ]

-- A secret that is made for a cluster and stored as it is under its own name and namespace: the
-- reconciler of a resource with the same reference accepts it, and what it reads is the kubeconfig
-- that was made for the token and the certificate of the account, with the address and the
-- certificates that were chosen.
pub reader_secret_is_accepted :
    (se : SecretEnv) (e : ClusterEnv) (cluster : ClusterResource) (account configured : String)
    (s : ReaderSecret)
    → get_reader_secret_for_cluster se cluster account configured ≡ ok s
    → e.get_secret s.namespace s.name ≡ some (record { type = s.type; data_map = s.data_map })
    → (token ca : Option String) × (kubeconfig : String) × (get_reader_secret_token_and_ca_cert se
          account
        ≡ ok (token, ca))
      × (se.make_kubeconfig cluster.name account
            (choose_address se cluster configured)
            (choose_ca_data se cluster (or_empty ca))
            (or_empty token)
          ≡ some kubeconfig)
      × (get_k8s_config_for_cluster e cluster.spec.secret_namespace cluster.spec.secret_name
          ≡ ok kubeconfig)
unfolding get_k8s_config_for_cluster
reader_secret_is_accepted se e cluster account configured s q stored =
    let w = reader_secret-IsFor se cluster account configured s q in
    (
      w.token,
      w.ca,
      w.kubeconfig,
      w.taken,
      w.made,
      subst (λ n. get_k8s_config_for_cluster e n cluster.spec.secret_name ≡ ok w.kubeconfig)
          w.placed
          (subst (λ n. get_k8s_config_for_cluster e s.namespace n ≡ ok w.kubeconfig) w.named
            (rw (stored, w.typed, w.kept, get_k8s_config_for_cluster) refl)),
    )
