-- ===== src/Doctor/Parsers/Worktrees/Printed.antt =====
-- Worktrees that git prints are read back.
use Prim.Native.String
use Prim.Native.String.append
use Prim.Native.Char.{code}
use remote_devbox.Base.{
  strip, String, Bool, true, false, Option, none, some, List, [], ◌∷◌, ◌++◌, map, ◌==◌, ◌≡◌, refl,
  ap, ◌∙◌, All, or_default, join, split, trim, eqb_iff, sym,
}
use mathlib.Core.List.{append-nil}
use remote_devbox.Base.Splitting.{lacks, split-join}
use remote_devbox.Doctor.Types.{Worktree}
use remote_devbox.Doctor.Parsers.Worktrees.{
  cse_of, Current, flush, detail, with_detail, worktrees_from, parse_worktrees,
}

strip-append : (p s : String) → strip p (String.◌++◌ p s) ≡ some s
unfolding strip
strip-append String.[] s = ap (strip "") (append.nil s)
strip-append (String.◌∷◌ c p) s =
    ap (strip (String.◌∷◌ c p)) (append.cons c p s)
    ∙ rw ((eqb_iff (code c) (code c)).1 refl) (strip-append p s)

-- A worktree that git lists: its path, the lines between it and its branch, its branch, and a lock.
pub record Entry : Type 0 where
  pub path : String
  pub others : List String
  pub branch : Option String
  pub locked : Bool

abbrev branch_lines : Option String → List String
branch_lines none = []
branch_lines (some branch) = String.◌++◌ "branch " branch ∷ []

abbrev locked_lines : Bool → List String
locked_lines false = []
locked_lines true = "locked" ∷ []

-- Their lines, a blank one after each, and what `split` gives after the last of them.
unfoldable pub printed : List Entry → List String
printed [] = "" ∷ []
printed (e ∷ es) =
    String.◌++◌ "worktree " e.path
    ∷ (e.others ++ (branch_lines e.branch ++ (locked_lines e.locked ++ ("" ∷ printed es))))

-- A line that says nothing of the path, the branch or the lock.
abbrev pub IsOther : String → Type 0
IsOther line =
    (strip "worktree " line ≡ none)
    × (strip "branch " line ≡ none)
    × (strip "locked" (trim line) ≡ none)

-- A path that is not empty and has, like the branch, no blanks about it.
abbrev pub IsPlain : Entry → Type 0
IsPlain e =
    (trim e.path ≡ e.path)
    × ((e.path == "") ≡ false)
    × (trim (or_default e.branch "") ≡ or_default e.branch "")
    × All IsOther e.others

abbrev pub worktree_of : Entry → Worktree
worktree_of e = record {
  path = e.path;
  branch = or_default e.branch "";
  locked = e.locked;
  cse = cse_of "bridge-" e.path;
}

reads-others :
    (cur : Current) (others rest : List String)
    → All IsOther others
    → worktrees_from (some cur) (others ++ rest) ≡ worktrees_from (some cur) rest
unfolding worktrees_from with_detail detail
reads-others cur [] rest h = refl
reads-others cur (line ∷ lines) rest ((w, b, l), h) =
    rw (worktrees_from, w, with_detail, detail, b, l) (reads-others cur lines rest h)

-- What a worktree's own lines make of it.
reads-lock :
    (cur : Current) (locked : Bool) (rest : List String)
    → cur.locked ≡ false
    → worktrees_from (some cur) (locked_lines locked ++ ("" ∷ rest))
      ≡ worktrees_from (some (record cur { locked = locked })) rest
unfolding worktrees_from with_detail detail strip trim
reads-lock cur true rest h = refl
reads-lock cur false rest h = rw h refl

not_worktree : (branch : String) → strip "worktree " (String.◌++◌ "branch " branch) ≡ none
unfolding strip
not_worktree branch = ap (strip "worktree ") (append.cons "b" "ranch " branch)

reads-branch :
    (path : String) (branch : Option String) (rest : List String)
    → trim (or_default branch "") ≡ or_default branch ""
    → worktrees_from
        (some (record { path = path; branch = none; locked = false }))
        (branch_lines branch ++ rest)
      ≡ worktrees_from (some (record { path = path; branch = branch; locked = false })) rest
unfolding worktrees_from with_detail detail strip
reads-branch path none rest h = refl
reads-branch path (some branch) rest h =
    rw (worktrees_from, not_worktree branch, with_detail, strip-append "branch " branch, detail, h)
      refl

-- A worktree that has been read, before the next one.
flush-worktree :
    (e : Entry)
    → (e.path == "") ≡ false
    → flush (some (record { path = e.path; branch = e.branch; locked = e.locked }))
      ≡ worktree_of e ∷ []
unfolding flush
flush-worktree e h = rw h refl

reads-worktree :
    (cur : Option Current) (path : String) (rest : List String)
    → trim path ≡ path
    → worktrees_from cur (String.◌++◌ "worktree " path ∷ rest)
      ≡ flush cur
        ++ worktrees_from (some (record { path = path; branch = none; locked = false })) rest
unfolding worktrees_from
reads-worktree cur path rest h = rw (worktrees_from, strip-append "worktree " path, h) refl

reads-printed :
    (cur : Option Current) (es : List Entry)
    → All IsPlain es
    → worktrees_from cur (printed es) ≡ flush cur ++ map worktree_of es
unfolding printed worktrees_from with_detail detail strip trim
reads-printed none [] h = refl
reads-printed (some cur) [] h = sym (append-nil (flush (some cur)))
reads-printed cur (e ∷ es) ((path, full, branch, others), h) =
    let next = "" ∷ printed es in
    let lock = locked_lines e.locked ++ next in
    let after = branch_lines e.branch ++ lock in
    let begun : Current = record { path = e.path; branch = none; locked = false } in
    let on_branch : Current = record { path = e.path; branch = e.branch; locked = false } in
    let read : Current = record { path = e.path; branch = e.branch; locked = e.locked } in
    reads-worktree cur e.path (e.others ++ after) path
    ∙ ap (λ ws. flush cur ++ ws)
        (reads-others begun e.others after others
          ∙ reads-branch e.path e.branch lock branch
          ∙ reads-lock on_branch e.locked (printed es) refl
          ∙ reads-printed (some read) es h
          ∙ ap (λ ws. ws ++ map worktree_of es) (flush-worktree e full))

-- The whole output of git.
abbrev pub listing : List Entry → String
listing es = join "\n" (printed es)

split-listing :
    (es : List Entry)
    → All (λ l. lacks b'\n' l ≡ true) (printed es)
    → split b'\n' (listing es) ≡ printed es
unfolding printed
split-listing [] h = split-join "\n" "" [] h
split-listing (e ∷ es) h = split-join "\n" _ _ h

-- The worktrees that git lists, no line with a line break in it, each worktree with a path that is
-- not empty, no blanks about its path and branch, and other lines that say nothing of these or a
-- lock, are read back in their order: path, branch (empty without one) and lock, with the session
-- that its path names.
pub parse_worktrees-listing :
    (es : List Entry)
    → All IsPlain es
    → All (λ l. lacks b'\n' l ≡ true) (printed es)
    → parse_worktrees (listing es) ≡ map worktree_of es
unfolding parse_worktrees
parse_worktrees-listing es plain h =
    ap (worktrees_from none) (split-listing es h) ∙ reads-printed none es plain
