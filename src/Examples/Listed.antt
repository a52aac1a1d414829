-- ===== src/Examples/Listed.antt =====
-- Two worktrees that git lists, the second of them locked and without a branch.
use remote_devbox.Base.{strip, true, false, none, some, List, [], ◌∷◌, trim, ◌≡◌, refl, All}
use remote_devbox.Base.Splitting.{lacks}
use remote_devbox.Doctor.Parsers.Worktrees.{cse_of, parse_worktrees}
use remote_devbox.Doctor.Parsers.Worktrees.Printed.{
  Entry, printed, IsPlain, parse_worktrees-listing,
}

abbrev listed : List Entry
listed =
    record {
      path = "/w/main";
      others = "HEAD 1f" ∷ [];
      branch = some "refs/heads/main";
      locked = false;
    }
    ∷ record {
      path = "/w/bridge-cse_x1";
      others = "HEAD 2e" ∷ "detached" ∷ [];
      branch = none;
      locked = true;
    }
    ∷ []

listed-IsPlain : All IsPlain listed
unfolding strip trim
listed-IsPlain = (
  (refl, refl, refl, ((refl, refl, refl), tt)),
  ((refl, refl, refl, ((refl, refl, refl), ((refl, refl, refl), tt))), tt),
)

listed-lines : All (λ l. lacks b'\n' l ≡ true) (printed listed)
unfolding printed
listed-lines = (refl, (refl, (refl, (refl, (refl, (refl, (refl, (refl, (refl, (refl, tt))))))))))

parse_worktrees-listing_example :
    parse_worktrees
      "worktree /w/main\nHEAD 1f\nbranch refs/heads/main\n\nworktree /w/bridge-cse_x1\nHEAD 2e\ndetached\nlocked\n\n"
    ≡ record { path = "/w/main"; branch = "refs/heads/main"; locked = false; cse = none }
      ∷ record { path = "/w/bridge-cse_x1"; branch = ""; locked = true; cse = some "cse_x1" }
      ∷ []
unfolding printed cse_of
parse_worktrees-listing_example = parse_worktrees-listing listed listed-IsPlain listed-lines
