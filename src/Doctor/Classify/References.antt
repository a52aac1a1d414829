-- ===== src/Doctor/Classify/References.antt =====
-- Which processes refer to a worktree.
use Prim.Native.String
use Prim.Native.String.append
use Prim.Native.Char.{Char, code}
use remote_devbox.Base.{
  String, Bool, true, false, List, [], ◌∷◌, ◌==◌, ◌≡◌, ◌↔◌, ◌&&◌, refl, sym, ap, ◌∙◌, All,
  Bool-cases, inl, inr, any, codes, every, eqb, eq_iff, and-split, includes, if◌then◌else◌,
}
use remote_devbox.Base.Within.{IsWithin, includes_iff}
use remote_devbox.Doctor.Types.{ProcRef}
use remote_devbox.Doctor.Classify.{strip_slashes, is_worktree_protected}

abbrev pub are_slashes : String → Bool
are_slashes s = every (λ c. eqb c b'/') (codes s)

abbrev pub ends_in_slash : String → Bool
ends_in_slash String.[] = false
ends_in_slash (String.◌∷◌ c s) = if s == "" then eqb (code c) b'/' else ends_in_slash s

-- The path up to the slashes at its end.
abbrev pub IsStem : String → String → Type 0
IsStem path stem =
    (slashes : String) × (path ≡ String.◌++◌ stem slashes)
    × (are_slashes slashes ≡ true)
    × (ends_in_slash stem ≡ false)

pub strip_slashes-IsStem : (path : String) → IsStem path (strip_slashes path)
unfolding strip_slashes
strip_slashes-IsStem String.[] = ("", sym (append.nil ""), refl, refl)
strip_slashes-IsStem (String.◌∷◌ c s) =
    let (slashes, whole, only, ended) = strip_slashes-IsStem s in
    elim (Bool-cases (eqb (code c) b'/')) [
      | inr other ↦ rw other (
        slashes,
        ap (λ t. String.◌∷◌ c t) whole ∙ sym (append.cons c (strip_slashes s) slashes),
        only,
        elim (Bool-cases (strip_slashes s == "")) [
          | inl e ↦ rw (e, other) refl
          | inr e ↦ rw e ended
        ],
      )
      | inl slash ↦ elim (Bool-cases (strip_slashes s == "")) [
        | inr e ↦
            rw (slash, e)
              (
                slashes,
                ap (λ t. String.◌∷◌ c t) whole ∙ sym (append.cons c (strip_slashes s) slashes),
                only,
                rw e ended,
              )
        | inl e ↦
            let rest : s ≡ slashes =
              whole
              ∙ ap (λ t. String.◌++◌ t slashes) ((eq_iff (strip_slashes s) "").0 e)
              ∙ append.nil slashes in
            rw (slash, e)
              (String.◌∷◌ c s, sym (append.nil (String.◌∷◌ c s)), rw (slash, rest) only, refl)
      ]
    ]

strip_slashes-slashes : (s : String) → are_slashes s ≡ true → strip_slashes s ≡ ""
unfolding strip_slashes
strip_slashes-slashes String.[] h = refl
strip_slashes-slashes (String.◌∷◌ c s) h =
    let (slash, rest) = and-split (eqb (code c) b'/') (are_slashes s) h in
    rw (slash, strip_slashes-slashes s rest) refl

strip_slashes-append :
    (stem slashes : String)
    → are_slashes slashes ≡ true
    → ends_in_slash stem ≡ false
    → strip_slashes (String.◌++◌ stem slashes) ≡ stem
unfolding strip_slashes
strip_slashes-append String.[] slashes only ended =
    ap strip_slashes (append.nil slashes) ∙ strip_slashes-slashes slashes only
strip_slashes-append (String.◌∷◌ c s) slashes only ended =
    ap strip_slashes (append.cons c s slashes) ∙ elim (Bool-cases (s == "")) [
      | inl e ↦
          let none_left = (eq_iff s "").0 e in
          rw (strip_slashes-append s slashes only (rw none_left refl), e, (rw e at ended)) refl
      | inr e ↦ rw (strip_slashes-append s slashes only (rw e at ended), e) (by_slash c s)
    ]
  where
    by_slash :
        (d : Char) (t : String)
        → (if eqb (code d) b'/' && false then "" else String.◌∷◌ d t) ≡ String.◌∷◌ d t
    by_slash d t = elim (Bool-cases (eqb (code d) b'/')) [ inl e ↦ rw e refl | inr e ↦ rw e refl ]

-- A path has one stem.
pub IsStem-unique : (path stem : String) → IsStem path stem → strip_slashes path ≡ stem
IsStem-unique path stem (slashes, whole, only, ended) =
    ap strip_slashes whole ∙ strip_slashes-append stem slashes only ended

-- No process passes a test exactly if none has what the test decides.
any-none_iff :
    (test : ProcRef → Bool) (P : ProcRef → Type 0) (procs : List ProcRef)
    → ((p : ProcRef) → (test p ≡ true) ↔ P p)
    → (any test procs ≡ false) ↔ All (λ p. ¬ P p) procs
any-none_iff test P [] decides = (λ h. tt, λ h. refl)
any-none_iff test P (p ∷ ps) decides =
    let (to, from) = any-none_iff test P ps decides in
    elim (Bool-cases (test p)) [
      | inl e ↦ rw e (λ h. absurd (cc), λ (h, hs). absurd (h ((decides p).0 e)))
      | inr e ↦ rw e (λ h. (λ k. absurd (let r = (decides p).1 k in cc), to h), λ (h, hs). from hs)
    ]

-- A worktree is not protected exactly if no command line has the stem of its path in it.
pub is_worktree_protected-unused_iff :
    (path stem : String) (procs : List ProcRef)
    → IsStem path stem
    → (is_worktree_protected path procs ≡ false)
      ↔ All (λ (p : ProcRef). ¬ IsWithin stem p.cmd) procs
unfolding is_worktree_protected
is_worktree_protected-unused_iff path stem procs h = rw (IsStem-unique path stem h) (
    any-none_iff (λ (p : ProcRef). includes p.cmd stem) (λ p. IsWithin stem p.cmd) procs
      (λ p. includes_iff p.cmd stem))
