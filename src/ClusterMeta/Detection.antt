-- ===== src/ClusterMeta/Detection.antt =====
-- What is detected of a node, against tables without loops and early returns.
use cluster_registry_control.Common.{
  String, ◌≡◌, refl, ◌∙◌, inl, inr, Bool, true, false, not, ◌==◌, Option, none, some, List, [], ◌∷◌,
  arith, sym, ap, eq_iff, has, get, if◌then◌else◌, Bool-cases, Option-cases, Result, Result-cases,
  ok, err, ◌>>=◌,
}
use cluster_registry_control.ClusterMeta.{
  Node, MetaError, unknown_provider, unknown_distribution, could_not_parse, nil_node, Env,
  iks_label, has_value, get_k8s_node, node_or_first, detect_node_by_provider_id, has_scheme,
  is_vsphere, is_cisco, Detector, detect_first, is_amazon, is_azure, is_google, is_kind,
  detect_provider, known_providers,
}
use cluster_registry_control.ClusterMeta.Distributions.{
  nodepool_label, os_id_label, gke_label, agentpool_label, has_provider, with_node, is_pke, is_eks,
  has_label_and_provider, is_kind_distribution, is_openshift, detect_distribution,
  known_distributions,
}

-- The scheme of the provider id of a node, which is empty if there is no id.
abbrev pub scheme_of : Env → Node → Result MetaError String
scheme_of env n =
    if n.provider_id == ""
    then ok ""
    else elim (env.parse_scheme n.provider_id) [ none ↦ err could_not_parse | some s ↦ ok s ]

-- The provider for a scheme, for a node with or without the IKS label.
abbrev pub provider_of : Bool → String → Result MetaError String
provider_of is_iks s =
    if s == "aws"
    then ok "amazon"
    else if s == "azure"
    then ok "azure"
    else if s == "gce"
    then ok "google"
    else if s == "kind"
    then ok "kind"
    else if s == "vsphere"
    then ok (if is_iks then "cisco" else "vsphere")
    else err unknown_provider

vsphere_is_not_kind : (s : String) → (s == "vsphere") ≡ true → (s == "kind") ≡ false
vsphere_is_not_kind s e =
    let same : s ≡ "vsphere" = (eq_iff s "vsphere").0 e in rw same (ground arith)

-- A test by scheme, on a node.
has_scheme-eq :
    (env : Env) (n : Node) (scheme name : String)
    → ("" == scheme) ≡ false
    → has_scheme scheme name env (some n) ≡ (scheme_of env n >>= λ s. ok (s == scheme, name))
unfolding has_scheme detect_node_by_provider_id node_or_first
has_scheme-eq env n scheme name h = elim (Bool-cases (n.provider_id == "")) [
  | inl e ↦ ground arith
  | inr e ↦ elim (Option-cases (env.parse_scheme n.provider_id)) [
    | inl p ↦ ground arith
    | inr (s, p) ↦ ground arith
  ]
]

-- The tests for nodes of vSphere, without and with the IKS label.
is_vsphere-eq :
    (env : Env) (n : Node)
    → is_vsphere env (some n) ≡ (
        scheme_of env n >>= λ s.
        if has_value iks_label n.labels then ok (false, "") else ok (s == "vsphere", "vsphere"))
unfolding is_vsphere detect_node_by_provider_id node_or_first
is_vsphere-eq env n = elim (Bool-cases (n.provider_id == "")) [
  | inl e ↦ ground arith
  | inr e ↦ elim (Option-cases (env.parse_scheme n.provider_id)) [
    | inl p ↦ ground arith
    | inr (s, p) ↦ ground arith
  ]
]

is_cisco-eq :
    (env : Env) (n : Node)
    → is_cisco env (some n) ≡ (
        scheme_of env n >>= λ s.
        if not (has_value iks_label n.labels) then ok (false, "") else ok (s == "vsphere", "cisco"))
unfolding is_cisco detect_node_by_provider_id node_or_first
is_cisco-eq env n = elim (Bool-cases (n.provider_id == "")) [
  | inl e ↦ ground arith
  | inr e ↦ elim (Option-cases (env.parse_scheme n.provider_id)) [
    | inl p ↦ ground arith
    | inr (s, p) ↦ ground arith
  ]
]

-- What the tests of a list answer.
abbrev Answers : Option Node → List Detector → List (Bool × String) → Type 0
Answers target [] [] = Unit {0}
Answers target (f ∷ fs) (r ∷ rs) = (f target ≡ ok r) × Answers target fs rs
Answers target _ _ = ⊥

-- The name of the first test that says yes.
abbrev first_name : MetaError → List (Bool × String) → Result MetaError String
first_name unknown [] = err unknown
first_name unknown ((found, name) ∷ rs) = if found then ok name else first_name unknown rs

detect_first_lem :
    (d : Bool) (unknown : MetaError) (fs : List Detector) (rs : List (Bool × String))
    (target : Option Node)
    → d ≡ false
    → Answers target fs rs
    → detect_first d unknown fs target ≡ first_name unknown rs
unfolding detect_first
detect_first_lem d unknown [] [] target l h = refl
detect_first_lem d unknown [] (r ∷ rs) target l h = absurd h
detect_first_lem d unknown (f ∷ fs) [] target l h = absurd h
detect_first_lem d unknown (f ∷ fs) ((found, name) ∷ rs) target l (h, hs) =
    rw (h, detect_first_lem d unknown fs rs target l hs, l)

detect_first-err :
    (d : Bool) (unknown e : MetaError) (f : Detector) (fs : List Detector) (target : Option Node)
    → d ≡ false
    → f target ≡ err e
    → detect_first d unknown (f ∷ fs) target ≡ err e
unfolding detect_first
detect_first-err d unknown e f fs target l h = rw (h, l)

-- The answers of the tests for a provider, for a node with an id.
abbrev provider_answers : Bool → String → List (Bool × String)
provider_answers iks s =
    (s == "aws", "amazon")
    ∷ (s == "azure", "azure")
    ∷ (s == "gce", "google")
    ∷ (if iks then (false, "") else (s == "vsphere", "vsphere"))
    ∷ (s == "kind", "kind")
    ∷ (if not iks then (false, "") else (s == "vsphere", "cisco"))
    ∷ []

provider_answers_lem :
    (s : String) (iks : Bool)
    → first_name unknown_provider (provider_answers iks s) ≡ provider_of iks s
provider_answers_lem s true = ground (arith, vsphere_is_not_kind s)
provider_answers_lem s false = ground (arith, vsphere_is_not_kind s)

module _ (env : Env) (live : env.is_done ≡ false) where
  provider_answers-Answers :
      (n : Node) (s : String)
      → scheme_of env n ≡ ok s
      → Answers (some n) (known_providers env) (provider_answers (has_value iks_label n.labels) s)
  provider_answers-Answers n s h = (
    has_scheme-eq env n "aws" "amazon" refl ∙ rw h,
    (
      has_scheme-eq env n "azure" "azure" refl ∙ rw h,
      (
        has_scheme-eq env n "gce" "google" refl ∙ rw h,
        (
          is_vsphere-eq env n ∙ rw h (ground arith),
          (
            has_scheme-eq env n "kind" "kind" refl ∙ rw h,
            (is_cisco-eq env n ∙ rw h (ground arith), tt),
          ),
        ),
      ),
    ),
  )

  detect_provider-err :
      (n : Node) (e : MetaError) → scheme_of env n ≡ err e → detect_provider env (some n) ≡ err e
  unfolding detect_provider
  detect_provider-err n e h =
      detect_first-err env.is_done unknown_provider e (is_amazon env)
        (is_azure env ∷ is_google env ∷ is_vsphere env ∷ is_kind env ∷ is_cisco env ∷ []) (some n)
        live (has_scheme-eq env n "aws" "amazon" refl ∙ rw h)

  -- While the context is not done, the provider of a node is the one that the table has for the scheme
  -- of its provider id, by its label of IKS too; an id that is no URL is an error.
  pub detect_provider_lem :
      (n : Node)
      → detect_provider env (some n)
        ≡ (scheme_of env n >>= λ s. provider_of (has_value iks_label n.labels) s)
  unfolding detect_provider
  detect_provider_lem n = elim (Result-cases (scheme_of env n)) [
    | inr (e, h) ↦ detect_provider-err n e h ∙ rw h
    | inl (s, h) ↦
        let iks : Bool = has_value iks_label n.labels in
        detect_first_lem env.is_done unknown_provider (known_providers env) (provider_answers iks s)
          (some n) live (provider_answers-Answers n s h)
        ∙ provider_answers_lem s iks
        ∙ sym (ap (λ x. x >>= λ t. provider_of iks t) h)
  ]

  -- Without a node and without one in the cluster, both detections end in a panic, while the context
  -- is not done.
  detection_panics :
      env.list_nodes ≡ some []
      → (detect_provider env none ≡ err nil_node) × (detect_distribution env none ≡ err nil_node)
  unfolding detect_provider detect_distribution detect_first has_scheme is_vsphere
      detect_node_by_provider_id node_or_first get_k8s_node is_eks with_node
  detection_panics e = (ground arith, ground arith)

  has_provider-eq :
      (n : Node) (found provider distribution : String)
      → detect_provider env (some n) ≡ ok found
      → has_provider provider distribution env (some n) ≡ ok (found == provider, distribution)
  unfolding has_provider
  has_provider-eq n found provider distribution p = rw (p, has_provider)

  has_label_and_provider-eq :
      (n : Node) (label found provider distribution : String)
      → detect_provider env (some n) ≡ ok found
      → (found == provider) ≡ false
      → has_label_and_provider label provider distribution env (some n) ≡ ok (false, distribution)
  unfolding has_label_and_provider with_node node_or_first
  has_label_and_provider-eq n label found provider distribution p q =
      ground (arith, has_provider-eq n found provider distribution p)

  has-has_value :
      (key : String) (n : Node) → has_value key n.labels ≡ true → has key n.labels ≡ true
  has-has_value key n h = elim (Option-cases (get key n.labels)) [
    | inl e ↦ (let no : false ≡ true = rw e at h in absurd (ground arith))
    | inr (v, e) ↦ ground arith
  ]

  is_eks-os_id :
      (n : Node) → has_value os_id_label n.labels ≡ true → is_eks env (some n) ≡ ok (false, "EKS")
  unfolding is_eks with_node node_or_first
  is_eks-os_id n o = ground (arith, has-has_value os_id_label n o)

  is_pke-no_pool :
      (n : Node)
      → has_value nodepool_label n.labels ≡ false
      → is_pke env (some n) ≡ ok (false, "PKE")
  unfolding is_pke with_node node_or_first
  is_pke-no_pool n p = rw p

  is_openshift-os_id :
      (n : Node)
      → has_value os_id_label n.labels ≡ true
      → is_openshift env (some n) ≡ ok (true, "OPENSHIFT")
  unfolding is_openshift with_node node_or_first
  is_openshift-os_id n o = rw o

  is_kind_distribution-eq :
      (n : Node)
      → detect_provider env (some n) ≡ ok "amazon"
      → is_kind_distribution env (some n) ≡ ok (false, "KIND")
  unfolding is_kind_distribution node_or_first
  is_kind_distribution-eq n p = has_provider-eq n "amazon" "kind" "KIND" p

  -- A node on Amazon with the OpenShift label runs OpenShift and not EKS, unless it is of a pool of
  -- PKE, whatever its other labels and annotations are.
  pub openshift_on_amazon :
      (n : Node)
      → scheme_of env n ≡ ok "aws"
      → has_value os_id_label n.labels ≡ true
      → has_value nodepool_label n.labels ≡ false
      → detect_distribution env (some n) ≡ ok "OPENSHIFT"
  unfolding detect_distribution
  openshift_on_amazon n s o p =
      let q : detect_provider env (some n) ≡ ok "amazon" = detect_provider_lem n ∙ rw s in
      detect_first_lem env.is_done unknown_distribution (known_distributions env)
        ((false, "EKS")
          ∷ (false, "PKE")
          ∷ (false, "GKE")
          ∷ (false, "AKS")
          ∷ (false, "KIND")
          ∷ (false, "IKS")
          ∷ (true, "OPENSHIFT")
          ∷ [])
        (some n) live
        (
          is_eks-os_id n o,
          (
            is_pke-no_pool n p,
            (
              has_label_and_provider-eq n gke_label "amazon" "google" "GKE" q refl,
              (
                has_label_and_provider-eq n agentpool_label "amazon" "azure" "AKS" q refl,
                (
                  is_kind_distribution-eq n q,
                  (
                    has_label_and_provider-eq n iks_label "amazon" "cisco" "IKS" q refl,
                    (is_openshift-os_id n o, tt),
                  ),
                ),
              ),
            ),
          ),
        )
