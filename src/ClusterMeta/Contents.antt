-- ===== src/ClusterMeta/Contents.antt =====
-- What the metadata of a cluster holds: the texts of its nodes, and no other.
use cluster_registry_control.Common.{
  String, ◌≡◌, refl, ◌∙◌, sym, ap, ◌↔◌, ◌⊎◌, inl, inr, ◌==◌, Option, none, some, List, [], ◌∷◌,
  arith, eq_iff, Map, put, In, Bool-cases, Option-cases, Result-cases, ok,
}
use mathlib.Core.Path.{subst}
use cluster_registry_control.Api.Cluster.{ClusterMetadata, no_metadata}
use cluster_registry_control.ClusterMeta.{Node, Env, detect_provider}
use cluster_registry_control.ClusterMeta.Distributions.{detect_distribution}
use cluster_registry_control.ClusterMeta.Metadata.{
  keys, collect_texts, texts, label_of, describe_nodes, make_locality, tolerate_provider,
  tolerate_distribution, get_cluster_metadata,
}

In-keys-put :
    (v k : String) (m : Map (Unit {0})) → In v (keys (put k tt m)) ↔ ((v ≡ k) ⊎ In v (keys m))
unfolding keys put
In-keys-put v k [] = (
  λ i. elim i [ inl q ↦ inl q | inr j ↦ absurd j ],
  λ w. elim w [ inl q ↦ inl q | inr j ↦ absurd j ],
)
In-keys-put v k ((j, u) ∷ m) = elim (Bool-cases (j == k)) [
  | inl e ↦
      let same : j ≡ k = (eq_iff j k).0 e in
      rw e (
        λ i. elim i [ inl q ↦ inl q | inr l ↦ inr (inr l) ],
        λ w. elim w [ inl q ↦ inl q | inr (inl q) ↦ inl (q ∙ same) | inr (inr l) ↦ inr l ],
      )
  | inr e ↦
      let (sound, complete) = In-keys-put v k m in
      rw e (
        λ i. elim i [
          | inl q ↦ inr (inl q)
          | inr l ↦ elim (sound l) [ inl q ↦ inl q | inr o ↦ inr (inr o) ]
        ],
        λ w. elim w [
          | inl q ↦ inr (complete (inl q))
          | inr (inl q) ↦ inl q
          | inr (inr l) ↦ inr (complete (inr l))
        ],
      )
]

-- Some node has the text.
abbrev pub IsOfNode : (Node → Option String) → List Node → String → Type 0
IsOfNode part ns v = (n : Node) × In n ns × (part n ≡ some v)

In-collect_texts :
    (part : Node → Option String) (ns : List Node) (m : Map (Unit {0})) (v : String)
    → In v (keys (collect_texts part ns m)) ↔ (In v (keys m) ⊎ IsOfNode part ns v)
unfolding collect_texts
In-collect_texts part [] m v = (λ i. inl i, λ w. elim w [ inl i ↦ i | inr (n, i, e) ↦ absurd i ])
In-collect_texts part (n ∷ ns) m v = elim (Option-cases (part n)) [
  | inl e ↦
      let (sound, complete) = In-collect_texts part ns m v in
      rw e (
        λ i. elim (sound i) [ inl j ↦ inl j | inr (x, j, h) ↦ inr (x, inr j, h) ],
        λ w. elim w [
          | inl j ↦ complete (inl j)
          | inr (x, inl q, h) ↦
              (let no : none ≡ some v = sym e ∙ ap part (sym q) ∙ h in absurd (ground arith))
          | inr (x, inr j, h) ↦ complete (inr (x, j, h))
        ],
      )
  | inr (t, e) ↦
      let (sound, complete) = In-collect_texts part ns (put t tt m) v in
      let (from_put, to_put) = In-keys-put v t m in
      rw e (
        λ i. elim (sound i) [
          | inl j ↦ elim (from_put j) [
            | inl q ↦ inr (n, inl refl, e ∙ ap some (sym q))
            | inr l ↦ inl l
          ]
          | inr (x, j, h) ↦ inr (x, inr j, h)
        ],
        λ w. elim w [
          | inl j ↦ complete (inl (to_put (inr j)))
          | inr (x, inl q, h) ↦
              (let same : some t ≡ some v = sym e ∙ ap part (sym q) ∙ h in
                complete (inl (to_put (inl (ground arith)))))
          | inr (x, inr j, h) ↦ complete (inr (x, j, h))
        ],
      )
]

In-texts :
    (part : Node → Option String) (ns : List Node) (v : String)
    → In v (texts part ns) ↔ IsOfNode part ns v
unfolding texts keys
In-texts part ns v =
    let (sound, complete) = In-collect_texts part ns [] v in
    (λ i. elim (sound i) [ inl j ↦ absurd j | inr w ↦ w ], λ w. complete (inr w))

abbrev pub regions_of : ClusterMetadata → List String
regions_of md = elim md.locality [ none ↦ [] | some l ↦ l.regions ]

abbrev pub zones_of : ClusterMetadata → List String
zones_of md = elim md.locality [ none ↦ [] | some l ↦ l.zones ]

-- The metadata names exactly what the nodes have.
abbrev pub Describes : Env → List Node → ClusterMetadata → Type 0
Describes env ns md =
    (v : String)
    → (In v md.kube_proxy_versions ↔ IsOfNode (λ n. some n.kube_proxy_version) ns v)
      × (In v md.kubelet_versions ↔ IsOfNode (λ n. some n.kubelet_version) ns v)
      × (In v (regions_of md) ↔ IsOfNode (λ n. label_of env.region_label n) ns v)
      × (In v (zones_of md) ↔ IsOfNode (λ n. label_of env.zone_label n) ns v)

make_locality-regions :
    (rs zs : List String) → (elim (make_locality rs zs) [ none ↦ [] | some l ↦ l.regions ]) ≡ rs
unfolding make_locality
make_locality-regions [] [] = refl
make_locality-regions [] (z ∷ zs) = refl
make_locality-regions (r ∷ rs) zs = refl

make_locality-zones :
    (rs zs : List String) → (elim (make_locality rs zs) [ none ↦ [] | some l ↦ l.zones ]) ≡ zs
unfolding make_locality
make_locality-zones [] [] = refl
make_locality-zones [] (z ∷ zs) = refl
make_locality-zones (r ∷ rs) zs = ground arith

describe_nodes-Describes :
    (env : Env) (p d : String) (ns : List Node) → Describes env ns (describe_nodes env p d ns)
unfolding describe_nodes
describe_nodes-Describes env p d ns v = (
  In-texts (λ n. some n.kube_proxy_version) ns v,
  In-texts (λ n. some n.kubelet_version) ns v,
  rw
      (make_locality-regions (texts (λ n. label_of env.region_label n) ns)
        (texts (λ n. label_of env.zone_label n) ns))
      (In-texts (λ n. label_of env.region_label n) ns v),
  rw
      (make_locality-zones (texts (λ n. label_of env.region_label n) ns)
        (texts (λ n. label_of env.zone_label n) ns))
      (In-texts (λ n. label_of env.zone_label n) ns v),
)

no_metadata-Describes : (env : Env) → Describes env [] no_metadata
no_metadata-Describes env v = (
  (λ i. absurd i, λ w. absurd w.1),
  (λ i. absurd i, λ w. absurd w.1),
  (λ i. absurd i, λ w. absurd w.1),
  (λ i. absurd i, λ w. absurd w.1),
)

-- If the nodes are listed and the metadata is returned, its versions of kube-proxy and kubelet, its
-- regions and its zones are exactly those that some node has, where an empty label does not count.
pub get_cluster_metadata-Describes :
    (env : Env) (ns : List Node) (md : ClusterMetadata)
    → env.list_nodes ≡ some ns
    → get_cluster_metadata env ≡ ok md
    → Describes env ns md
unfolding get_cluster_metadata
get_cluster_metadata-Describes env [] md l h =
    let same : ok no_metadata ≡ ok md = sym (rw l) ∙ h in
    let is_md : no_metadata ≡ md = ground arith in
    subst (Describes env []) is_md (no_metadata-Describes env)
get_cluster_metadata-Describes env (n ∷ ns) md l h =
    elim (Result-cases (tolerate_provider (detect_provider env (some n)))) [
      | inr (e, p) ↦ absurd (ground arith)
      | inl (p, pe) ↦
          elim (Result-cases (tolerate_distribution (detect_distribution env (some n)))) [
            | inr (e, d) ↦ absurd (ground arith)
            | inl (d, de) ↦
                let same : describe_nodes env p d (n ∷ ns) ≡ md = ground arith in
                subst (Describes env (n ∷ ns)) same (describe_nodes-Describes env p d (n ∷ ns))
          ]
    ]
