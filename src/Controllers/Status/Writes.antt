-- ===== src/Controllers/Status/Writes.antt =====
-- What is written to the status of a cluster, and which errors are returned.
use cluster_registry_control.Common.{
  String, is_some, ◌≡◌, refl, ◌≢◌, ◌↔◌, ◌⊎◌, inl, inr, true, false, ◌&&◌, ◌==◌, Option, none, some,
  [], ◌∷◌, ap, arith, eq_iff, Map, In, if◌then◌else◌, Bool-cases, Option-cases,
}
use cluster_registry_control.Api.Cluster.{
  ClusterCondition, ClusterResource, local_type, ready_state, failed_state,
}
use cluster_registry_control.Controllers.Conditions.{clusters_synced}
use cluster_registry_control.Controllers.Status.{
  Problem, reconciling, Answer, accepted, conflict, denied, StatusApi, update_cluster_status,
  conditions_to_write, set_status, update_cluster,
}

conditions_to_write_lem :
    (type : String) (m : Map ClusterCondition) (c : ClusterCondition)
    → In c (conditions_to_write type m)
      ↔ ((t : String) × In (t, c) m × ((type == local_type && c.type == clusters_synced) ≡ false))
unfolding conditions_to_write
conditions_to_write_lem type [] c = (λ i. absurd i, λ w. absurd w.1)
conditions_to_write_lem type ((t, d) ∷ m) c =
    let (sound, complete) = conditions_to_write_lem type m c in
    elim (Bool-cases (type == local_type && d.type == clusters_synced)) [
      | inl e ↦ rw e (
        λ i. (let (u, j, h) = sound i in (u, inr j, h)),
        λ w. elim w.1 [ inl q ↦ absurd (ground arith) | inr j ↦ complete (w.0, j, w.2) ],
      )
      | inr e ↦ rw e (
        λ i. elim i [
          | inl q ↦ (t, inl (ground arith), rw q e)
          | inr j ↦ (let (u, k, h) = sound j in (u, inr k, h))
        ],
        λ w. elim w.1 [ inl q ↦ inl (ground arith) | inr j ↦ inr (complete (w.0, j, w.2)) ],
      )
    ]

Answer-cases :
    (x : Answer) → ((c : ClusterResource) × (x ≡ accepted c)) ⊎ ((x ≡ conflict) ⊎ (x ≡ denied))
Answer-cases (accepted c) = inl (c, refl)
Answer-cases conflict = inr (inl refl)
Answer-cases denied = inr (inr refl)

set_status-conditions :
    (problem : Option Problem) (m : Map ClusterCondition) (cluster : ClusterResource)
    → (set_status problem m cluster).status.conditions ≡ conditions_to_write cluster.status.type m
unfolding set_status
set_status-conditions none m cluster = refl
set_status-conditions (some e) m cluster = refl

not_ready : (state : String) → (if state == ready_state then failed_state else state) ≢ ready_state
not_ready state h = elim (Bool-cases (state == ready_state)) [
  | inl e ↦
      let same : failed_state ≡ ready_state = rw e at h in
      let equal : (failed_state == ready_state) ≡ true = (eq_iff failed_state ready_state).1 same in
      absurd (ground arith)
  | inr e ↦ (let same : state ≡ ready_state = rw e at h in ground (arith, eq_iff state ready_state))
]

set_status-state :
    (problem : Option Problem) (m : Map ClusterCondition) (cluster : ClusterResource)
    → (is_some problem && (set_status problem m cluster).status.state == ready_state) ≡ false
unfolding set_status
set_status-state none m cluster = refl
set_status-state (some e) m cluster =
    let state =
      if cluster.status.state == ready_state then failed_state else cluster.status.state in
    elim (Bool-cases (state == ready_state)) [
      | inl q ↦ absurd (not_ready cluster.status.state ((eq_iff state ready_state).0 q))
      | inr q ↦ q
    ]

set_status-message :
    (problem : Option Problem) (m : Map ClusterCondition) (cluster : ClusterResource)
    → (set_status problem m cluster).status.message
      ≡ elim problem [ none ↦ cluster.status.message | some e ↦ e.text ]
unfolding set_status
set_status-message none m cluster = refl
set_status-message (some e) m cluster = refl

module _ (a : StatusApi) where
  -- What is accepted has the status of the receiver, and no error is returned then.
  update_cluster_status-writes :
      (cluster s : ClusterResource)
      → In s (update_cluster_status a cluster).0
      → (s.status ≡ cluster.status) × ((update_cluster_status a cluster).2 ≡ none)
  unfolding update_cluster_status
  update_cluster_status-writes cluster s i = elim (Answer-cases (a.update cluster)) [
    | inl (c, e) ↦ elim (rw (e, update_cluster_status) at i) [
      | inl q ↦ (ap (λ x. x.status) q, rw (e, update_cluster_status))
      | inr j ↦ absurd j
    ]
    | inr (inr e) ↦ absurd (rw (e, update_cluster_status) at i)
    | inr (inl e) ↦ elim (Option-cases (a.get_version cluster.name)) [
      | inl n ↦ absurd (rw (e, n, update_cluster_status) at i)
      | inr (v, n) ↦ elim (Answer-cases (a.update (record cluster { resource_version = v }))) [
        | inl (c, f) ↦ elim (rw (e, n, f, update_cluster_status) at i) [
          | inl q ↦ (ap (λ x. x.status) q, rw (e, n, f, update_cluster_status))
          | inr j ↦ absurd j
        ]
        | inr (inr f) ↦ absurd (rw (e, n, f, update_cluster_status) at i)
        | inr (inl f) ↦ absurd (rw (e, n, f, update_cluster_status) at i)
      ]
    ]
  ]

  update_cluster-returned :
      (problem : Option Problem) (m : Map ClusterCondition) (cluster : ClusterResource)
      → (update_cluster_status a (set_status problem m cluster)).2 ≡ none
      → (update_cluster a problem m cluster).2
        ≡ elim problem [ none ↦ none | some e ↦ if e.permanent then none else some (reconciling e) ]
  unfolding update_cluster
  update_cluster-returned none m cluster h = h
  update_cluster-returned (some e) m cluster h = refl

  -- If the API server accepts a status, it has the conditions of the map, but no `ClustersSynced` if
  -- the cluster is local; it is not `Ready` if there was an error to report, and its message is the
  -- text of that error. What is returned then is that error, unless it is permanent.
  pub update_cluster_lem :
      (problem : Option Problem) (m : Map ClusterCondition) (cluster s : ClusterResource)
      → In s (update_cluster a problem m cluster).0
      → ((c : ClusterCondition)
          → In c s.status.conditions ↔ (
              (t : String) × In (t, c) m
              × ((cluster.status.type == local_type && c.type == clusters_synced) ≡ false)))
        × ((is_some problem && s.status.state == ready_state) ≡ false)
        × (s.status.message ≡ elim problem [ none ↦ cluster.status.message | some e ↦ e.text ])
        × ((update_cluster a problem m cluster).2 ≡ elim problem [
          | none ↦ none
          | some e ↦ if e.permanent then none else some (reconciling e)
        ])
  unfolding update_cluster
  update_cluster_lem problem m cluster s i =
      let (same, no_error) = update_cluster_status-writes (set_status problem m cluster) s i in
      (
        λ c.
            rw (same, set_status-conditions problem m cluster)
              (conditions_to_write_lem cluster.status.type m c),
        rw same (set_status-state problem m cluster),
        rw same (set_status-message problem m cluster),
        update_cluster-returned problem m cluster no_error,
      )
