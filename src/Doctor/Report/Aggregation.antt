-- ===== src/Doctor/Report/Aggregation.antt =====
-- The status of a document is the worst of its components, whatever their order.
use mathlib.Core.List.{Perm, Permᴰ}
use mathlib.Core.List.Perm
use mathlib.Core.Logic.{∥∥₁_elim}
use remote_devbox.Base.{
  ◌≤◌, String, Bool, List, [], ◌∷◌, map, ◌≡◌, refl, sym, ap, ◌∙◌, ◌⊎◌, inl, inr, ◌↔◌, Memᴰ, All,
  arith, ◌↔◌, String, Bool, map, sym, List,
}
use remote_devbox.Base.Sorting.{sort-perm}
use remote_devbox.Doctor.Types.{HealthStatus, healthy, HealthResult}
use remote_devbox.Doctor.Report.{
  status_priority, worse, aggregate_from, aggregate_status, status_of, id_before,
  create_health_document,
}

priority_inj : (s t : HealthStatus) → status_priority s ≡ status_priority t → s ≡ t
priority_inj s t h = ground arith

worse_comm : (w s t : HealthStatus) → worse (worse w s) t ≡ worse (worse w t) s
unfolding worse
worse_comm w s t = ground arith

aggregate_from-IsWorst :
    (w : HealthStatus) (ss : List HealthStatus)
    → (status_priority w ≤ status_priority (aggregate_from w ss))
      × All (λ s. status_priority s ≤ status_priority (aggregate_from w ss)) ss
unfolding aggregate_from worse
aggregate_from-IsWorst w [] = (omega arith, tt)
aggregate_from-IsWorst w (s ∷ ss) =
    let (low, rest) = aggregate_from-IsWorst (worse w s) ss in (ground arith, (ground arith, rest))

worse_cases : (w s : HealthStatus) → (worse w s ≡ w) ⊎ (worse w s ≡ s)
unfolding worse
worse_cases w s = ground arith

aggregate_from-mem :
    (w : HealthStatus) (ss : List HealthStatus)
    → (aggregate_from w ss ≡ w) ⊎ Memᴰ (aggregate_from w ss) ss
unfolding aggregate_from worse
aggregate_from-mem w [] = inl refl
aggregate_from-mem w (s ∷ ss) = elim (aggregate_from-mem (worse w s) ss) [
  | inl e ↦ elim (worse_cases w s) [ inl old ↦ inl (e ∙ old) | inr new ↦ inr (Memᴰ.head (e ∙ new)) ]
  | inr m ↦ inr (Memᴰ.tail m)
]

-- The aggregate is at least as bad as every status, and is one of them, or `healthy` if none is
-- worse.
pub aggregate_status-IsWorst :
    (ss : List HealthStatus)
    → All (λ s. status_priority s ≤ status_priority (aggregate_status ss)) ss
      × ((aggregate_status ss ≡ healthy) ⊎ Memᴰ (aggregate_status ss) ss)
unfolding aggregate_status
aggregate_status-IsWorst ss = ((aggregate_from-IsWorst healthy ss).1, aggregate_from-mem healthy ss)

aggregate_from-permᴰ :
    (w : HealthStatus) {ss ts : List HealthStatus}
    → Permᴰ ss ts
    → aggregate_from w ss ≡ aggregate_from w ts
unfolding aggregate_from
aggregate_from-permᴰ w Permᴰ.nil = refl
aggregate_from-permᴰ w (Permᴰ.cons {a} e p) = rw (← e) (aggregate_from-permᴰ (worse w a) p)
aggregate_from-permᴰ w (Permᴰ.swap {a} {b} {l} e f) =
    rw (← e, ← f) (ap (λ s. aggregate_from s l) (worse_comm w a b))
aggregate_from-permᴰ w (Permᴰ.trans p q) = aggregate_from-permᴰ w p ∙ aggregate_from-permᴰ w q

HealthStatus-set : IsSet HealthStatus
HealthStatus-set = hlevel

pub aggregate_status-perm :
    {ss ts : List HealthStatus} → Perm ss ts → aggregate_status ss ≡ aggregate_status ts
unfolding aggregate_status
aggregate_status-perm p = ∥∥₁_elim p (HealthStatus-set _ _) (aggregate_from-permᴰ healthy)

-- A document holds the given components in some order, and its status is the worst of theirs: the
-- collation that orders them does not change it.
pub create_health_document-status :
    (before : String → String → Bool) (at : String) (cs : List HealthResult)
    → Perm (create_health_document before at cs).components cs
      × ((create_health_document before at cs).status ≡ aggregate_status (map status_of cs))
unfolding create_health_document
create_health_document-status before at cs = (
  sort-perm (id_before before) cs,
  aggregate_status-perm (Perm.map status_of (sort-perm (id_before before) cs)),
)

aggregate_from-healthy_iff :
    (w : HealthStatus) (ss : List HealthStatus)
    → (aggregate_from w ss ≡ healthy) ↔ ((w ≡ healthy) × All (λ s. s ≡ healthy) ss)
unfolding aggregate_from worse
aggregate_from-healthy_iff w [] = (λ h. (h, tt), λ h. h.0)
aggregate_from-healthy_iff w (s ∷ ss) = ground (arith, aggregate_from-healthy_iff (worse w s) ss)

All-map-status :
    (cs : List HealthResult)
    → All (λ s. s ≡ healthy) (map status_of cs) ↔ All (λ (c : HealthResult). c.status ≡ healthy) cs
All-map-status [] = (λ h. tt, λ h. tt)
All-map-status (c ∷ cs) =
    let (to, from) = All-map-status cs in (λ h. (h.0, to h.1), λ h. (h.0, from h.1))

-- A document is healthy exactly if each of its components is.
pub create_health_document-healthy_iff :
    (before : String → String → Bool) (at : String) (cs : List HealthResult)
    → ((create_health_document before at cs).status ≡ healthy)
      ↔ All (λ (c : HealthResult). c.status ≡ healthy) cs
unfolding aggregate_status
create_health_document-healthy_iff before at cs =
    let same = (create_health_document-status before at cs).1 in
    let (to, from) = aggregate_from-healthy_iff healthy (map status_of cs) in
    let (up, down) = All-map-status cs in
    (λ h. up (to (sym same ∙ h)).1, λ h. same ∙ from (refl, down h))
