-- ===== src/Client/Bridge/Dropping.antt =====
-- A bridge is dropped only when both of its processes are known to be gone.
use remote_devbox.Base.{
  if◌then◌else◌, String, Bool, true, false, Option, none, some, List, [], ◌∷◌, ◌++◌, ◌≡◌, ◌≢◌, refl,
  All, Bool-cases, ◌==◌, Memᴰ, is_empty, not, ◌||◌, arith,
}
use mathlib.Core.Logic.{◌⊎◌, inl, inr}
use remote_devbox.Json.{Number}
use remote_devbox.Doctor.Collect.{truthy}
use remote_devbox.Client.Bridge.{
  LiveMount, BridgeFile, Sighting, gone, unclear, seen, Delivery, delivered, no_process, denied,
  Stopping, BridgeState, live, stale, unknown, stop_one, by_sighting, by_delivery,
  stop_owned_bridge_processes, assess_bridge_processes, by_state, keeps, keep_from, read_bridges,
  reconcile_bridges,
}

module _ {Host : Type 0} (lookup : Number → Host → Sighting × Host)
    (signal : Number → Host → Delivery × Host) where
  -- An identity is recorded, and the process was not found, by the lookup or by the signal.
  abbrev pub IsGone : Number → Option String → Type 0
  IsGone pid o =
      (identity : String) × (h : Host) × (o ≡ some identity)
      × (((lookup pid h).0 ≡ gone) ⊎ ((signal pid h).0 ≡ no_process))

  -- Safe, with nothing signalled.
  abbrev IsQuiet : Stopping Host → Type 0
  IsQuiet s = (s.safe ≡ true) × (s.signalled ≡ [])

  append_one : (ns : List Number) (n : Number) → ns ++ n ∷ [] ≢ []
  append_one [] n e = cc
  append_one (m ∷ ns) n e = cc

  by_delivery-IsQuiet :
      (pid : Number) (d : Delivery × Host) (s : Stopping Host)
      → IsQuiet (by_delivery lookup signal pid d s)
      → IsQuiet s × (d.0 ≡ no_process)
  unfolding by_delivery
  by_delivery-IsQuiet pid (delivered, h) s q = absurd (append_one s.signalled pid q.1)
  by_delivery-IsQuiet pid (no_process, h) s q = (q, refl)
  by_delivery-IsQuiet pid (denied, h) s q = absurd (let r = q.0 in cc)

  by_sighting-IsQuiet :
      (pid : Number) (expected : String) (d : Sighting × Host) (s : Stopping Host)
      → IsQuiet (by_sighting lookup signal pid expected d s)
      → IsQuiet s × ((d.0 ≡ gone) ⊎ ((signal pid d.1).0 ≡ no_process))
  unfolding by_sighting
  by_sighting-IsQuiet pid expected (gone, h) s q = (q, inl refl)
  by_sighting-IsQuiet pid expected (unclear, h) s q = absurd (let r = q.0 in cc)
  by_sighting-IsQuiet pid expected (seen identity, h) s q =
      elim (Bool-cases (identity == expected)) [
        | inl e ↦
            let (before, none_there) =
              by_delivery-IsQuiet pid (signal pid h) (record s { host = h }) (rw e at q) in
            (before, inr none_there)
        | inr e ↦ absurd (let r = (rw e at q).0 in cc)
      ]

  stop_one-IsQuiet :
      (pid : Number) (o : Option String) (s : Stopping Host)
      → IsQuiet (stop_one lookup signal pid o s)
      → IsQuiet s × IsGone pid o
  unfolding stop_one
  stop_one-IsQuiet pid none s q = absurd (let r = q.0 in cc)
  stop_one-IsQuiet pid (some expected) s q =
      let (before, there) = by_sighting-IsQuiet pid expected (lookup pid s.host) s q in
      elim there [
        | inl e ↦ (before, (expected, s.host, refl, inl e))
        | inr e ↦ (before, (expected, (lookup pid s.host).1, refl, inr e))
      ]

  -- Neither process of the bridge was found.
  abbrev pub IsOver : LiveMount → Type 0
  IsOver b =
      IsGone b.rclone_pid (truthy b.rclone_identity) × IsGone b.ssh_pid (truthy b.ssh_identity)

  empty_of : (ns : List Number) → is_empty ns ≡ true → ns ≡ []
  empty_of [] h = refl
  empty_of (n ∷ ns) h = absurd (cc)

  dropped_quiet : (a e : Bool) → (not a || not e) ≡ false → (a ≡ true) × (e ≡ true)
  dropped_quiet a e h = ground arith

  by_state-IsOver :
      (s : BridgeState) (b : LiveMount) (h : Host)
      → (by_state lookup signal s b h).0 ≡ false
      → IsOver b
  unfolding by_state stop_owned_bridge_processes
  by_state-IsOver live b h e = absurd (cc)
  by_state-IsOver unknown b h e = absurd (cc)
  by_state-IsOver stale b h e =
      let stopped = stop_owned_bridge_processes lookup signal b h in
      let (safe, empty) = dropped_quiet stopped.safe (is_empty stopped.signalled) e in
      let start : Stopping Host = record { host = h; safe = true; signalled = [] } in
      let first = stop_one lookup signal b.rclone_pid (truthy b.rclone_identity) start in
      let (before, ssh) =
        stop_one-IsQuiet b.ssh_pid (truthy b.ssh_identity) first
          (safe, empty_of stopped.signalled empty) in
      ((stop_one-IsQuiet b.rclone_pid (truthy b.rclone_identity) start before).1, ssh)

  -- A bridge of the file stays in the state, or neither of its processes was found.
  abbrev pub IsTracked : List LiveMount → LiveMount → Type 0
  IsTracked kept b = Memᴰ b kept ⊎ IsOver b

  IsTracked-cons :
      (b : LiveMount) (kept bs : List LiveMount)
      → All (IsTracked kept) bs
      → All (IsTracked (b ∷ kept)) bs
  IsTracked-cons b kept [] h = tt
  IsTracked-cons b kept (c ∷ cs) (h, hs) =
      (elim h [ inl m ↦ inl (Memᴰ.tail m) | inr o ↦ inr o ], IsTracked-cons b kept cs hs)

  member_more :
      (b : LiveMount) (bs kept : List LiveMount)
      → All (λ c. Memᴰ c bs) kept
      → All (λ c. Memᴰ c (b ∷ bs)) kept
  member_more b bs [] h = tt
  member_more b bs (c ∷ cs) (m, h) = (Memᴰ.tail m, member_more b bs cs h)

  -- The bindings of one round: what is kept, and that the rest is accounted for.
  abbrev IsAccounted : List LiveMount → List LiveMount → Type 0
  IsAccounted bs kept = All (IsTracked kept) bs × All (λ c. Memᴰ c bs) kept

  keep-IsAccounted :
      (keep : Bool) (b : LiveMount) (bs kept : List LiveMount)
      → (keep ≡ false → IsOver b)
      → IsAccounted bs kept
      → IsAccounted (b ∷ bs) (if keep then b ∷ kept else kept)
  keep-IsAccounted true b bs kept over (tracked, known) = (
    (inl (Memᴰ.head refl), IsTracked-cons b kept bs tracked),
    (Memᴰ.head refl, member_more b bs kept known),
  )
  keep-IsAccounted false b bs kept over (tracked, known) =
      ((inr (over refl), tracked), member_more b bs kept known)

  keep_from-IsAccounted :
      (bs : List LiveMount) (h : Host) → IsAccounted bs (keep_from lookup signal bs h).0
  unfolding keep_from keeps
  keep_from-IsAccounted [] h = (tt, tt)
  keep_from-IsAccounted (b ∷ bs) h =
      let assessed = assess_bridge_processes lookup signal b h in
      let one = keeps lookup signal b h in
      keep-IsAccounted one.0 b bs (keep_from lookup signal bs one.1).0
        (by_state-IsOver assessed.0.state b assessed.1) (keep_from-IsAccounted bs one.1)

  -- Reconciling keeps only bridges of the file, and each bridge of the file either stays or has
  -- both its identities recorded and neither process found, by a lookup or by the signal to it.
  pub reconcile_bridges-IsTracked :
      (file : BridgeFile) (h : Host) (bs kept : List LiveMount) (after : Host)
      → read_bridges file ≡ some bs
      → reconcile_bridges lookup signal file h ≡ some (kept, after)
      → All (IsTracked kept) bs × All (λ c. Memᴰ c bs) kept
  unfolding reconcile_bridges
  reconcile_bridges-IsTracked file h bs kept after e k =
      let r = rw (reconcile_bridges, e) at k in
      let same : (keep_from lookup signal bs h).0 ≡ kept = cc in
      rw⁻¹ same (keep_from-IsAccounted bs h)
