-- ===== src/Spec/Resolve/Choices.antt =====
-- What chooseNamed chooses is one of the names, where the two that it may be given are.
use remote_devbox.Base.{String, Option, none, some, List, [], ◌∷◌, refl, eq_refl}
use remote_devbox.Doctor.Collect.{truthy}
use remote_devbox.Spec.Resolve.{choose_named, by_available, by_fallback, by_override}
use remote_devbox.Spec.Resolve.Spaces.{IsRef, is_space}

by_available-IsRef :
    (names : List String) (path what : String)
    → IsRef (is_space names) (by_available names path what).value
unfolding by_available
by_available-IsRef [] path what = tt
by_available-IsRef (one ∷ []) path what = rw (eq_refl one) refl
by_available-IsRef (one ∷ two ∷ more) path what = tt

by_fallback-IsRef :
    (o : Option String) (names : List String) (path what : String)
    → IsRef (is_space names) o
    → IsRef (is_space names) (by_fallback o names path what).value
unfolding by_fallback
by_fallback-IsRef none names path what h = by_available-IsRef names path what
by_fallback-IsRef (some name) names path what h = h

by_override-IsRef :
    (o fallback : Option String) (names : List String) (path what : String)
    → IsRef (is_space names) o
    → IsRef (is_space names) fallback
    → IsRef (is_space names) (by_override o fallback names path what).value
unfolding by_override
by_override-IsRef none fallback names path what h k = by_fallback-IsRef fallback names path what k
by_override-IsRef (some name) fallback names path what h k = h

pub choose_named-IsRef :
    (override fallback : Option String) (names : List String) (path what : String)
    → IsRef (is_space names) (truthy override)
    → IsRef (is_space names) (truthy fallback)
    → IsRef (is_space names) (choose_named override fallback names path what).value
unfolding choose_named
choose_named-IsRef override fallback names path what h k =
    by_override-IsRef (truthy override) (truthy fallback) names path what h k
