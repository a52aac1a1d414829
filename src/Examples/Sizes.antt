-- ===== src/Examples/Sizes.antt =====
-- A size with a unit and a `B`.
use remote_devbox.Base.{String, some, ◌≡◌, ◌↔◌, ◌⊎◌}
use remote_devbox.Spec.MemoryLimits.{canonical_memory_size}
use remote_devbox.Spec.MemoryLimits.Sizes.{IsDirect}
use remote_devbox.Spec.MemoryLimits.Canonical.{IsKept, canonical_memory_size_iff}

abbrev stated : String
stated = "512MB"

abbrev normal : String
normal = "512M"

canonical_memory_size_iff_example :
    (canonical_memory_size stated ≡ some normal)
    ↔ ((IsKept stated × (normal ≡ stated)) ⊎ IsDirect stated normal)
canonical_memory_size_iff_example = canonical_memory_size_iff stated normal
