-- ===== src/PathSecurity.antt =====
-- codex_worker/path_security.py: `unsafe_ancestor`. The file system is the sequence of what `lstat`
-- and `stat` answer for the components of the path, from the root down.
mod Tests
use superdev.Base.{
  if◌then◌else◌, string_eq, ◌==◌, nat_eq, pair_eq, option_string_eq, Bool-cases, Option-cases, all,
  ℕ, ◌/◌, ◌%◌, String, ◌≡◌, refl, ◌⊎◌, inl, inr, Bool, true, false, not, ◌&&◌, ◌||◌, Option, none,
  some, List, [], ◌∷◌, arith,
}

-- `os.lstat` on one component: whether it is a link, a directory, its permissions and its owner.
pub record Stat : Type 0 where
  pub is_link : Bool
  pub is_dir : Bool
  pub mode : ℕ
  pub owner : ℕ

-- What is found at one component; `none` stands for an `OSError`. `target` is what `stat` answers,
-- which follows a link.
pub record Component : Type 0 where
  pub path : String
  pub found : Option Stat
  pub target : Option Stat
  pub at_root : Bool

abbrev pub has_bit : ℕ → ℕ → Bool
has_bit bit mode = mode / bit % 2 == 1

-- `mode & 0o022`
abbrev pub is_shared_writable : ℕ → Bool
is_shared_writable mode = has_bit 16 mode || has_bit 2 mode

-- `mode & stat.S_ISVTX`
abbrev pub is_sticky : ℕ → Bool
is_sticky mode = has_bit 512 mode

-- A directory that others cannot write to, or a sticky one.
abbrev pub is_safe_dir : Stat → Bool
is_safe_dir d = d.is_dir && not (is_shared_writable d.mode && not (is_sticky d.mode))

abbrev pub is_shared : Stat → Bool
is_shared d = is_sticky d.mode && is_shared_writable d.mode

-- What counts at a component: a link is followed only directly under the root, and if root owns it.
abbrev pub followed : Component → Option Stat
followed c = elim c.found [
  | none ↦ none
  | some d ↦ if d.is_link then (if c.at_root && d.owner == 0 then c.target else none) else some d
]

-- The loop; `controlled` and `shared_sticky` are its variables, and `uid` is `os.getuid()`.
unfoldable pub unsafe_below : ℕ → Bool → Bool → List Component → Option String
unsafe_below uid controlled shared_sticky [] = none
unsafe_below uid controlled shared_sticky (c ∷ cs) =
    let own = unsafe_below uid true shared_sticky cs in
    let shared = unsafe_below uid false true cs in
    let other = unsafe_below uid controlled shared_sticky cs in
    elim (followed c) [
      | none ↦ some c.path
      | some d ↦
          if not (is_safe_dir d)
          then some c.path
          else if d.owner == uid
          then own
          else if is_shared d
          then shared
          else if not (d.owner == 0) || controlled || shared_sticky
          then some c.path
          else other
    ]

-- `unsafe_ancestor`
abbrev pub unsafe_ancestor : ℕ → List Component → Option String
unsafe_ancestor uid cs = unsafe_below uid false false cs

-- A component that is a safe directory of the user, of root, or a shared sticky one.
abbrev pub is_accepted : ℕ → Component → Bool
is_accepted uid c = elim (followed c) [
  | none ↦ false
  | some d ↦ is_safe_dir d && (d.owner == uid || is_shared d || d.owner == 0)
]

-- A component that is the user's own, or shared and sticky.
abbrev pub is_own : ℕ → Component → Bool
is_own uid c = elim (followed c) [ none ↦ false | some d ↦ d.owner == uid || is_shared d ]

-- The components below the first one that the user owns or that is shared.
abbrev pub below_own : ℕ → List Component → List Component
below_own uid [] = []
below_own uid (c ∷ cs) = let rest = below_own uid cs in if is_own uid c then cs else rest

-- What one round of the loop says of its component, when nothing unsafe is found.
round :
    (uid : ℕ) (controlled shared_sticky : Bool) (c : Component) (cs : List Component)
    → unsafe_below uid controlled shared_sticky (c ∷ cs) ≡ none
    → (is_accepted uid c ≡ true)
      × (((is_own uid c ≡ true) × (unsafe_below uid true shared_sticky cs ≡ none))
          ⊎ (((is_own uid c ≡ true) × (unsafe_below uid false true cs ≡ none))
              ⊎ ((is_own uid c ≡ false)
                  × ((controlled || shared_sticky) ≡ false)
                  × (unsafe_below uid controlled shared_sticky cs ≡ none))))
unfolding unsafe_below
round uid controlled shared_sticky c cs h = elim (Option-cases (followed c)) [
  | inl missing ↦ cc (rw (missing, unsafe_below) at h)
  | inr (d, there) ↦ elim (Bool-cases (is_safe_dir d)) [
    | inr unsafe ↦ cc (rw (there, unsafe, unsafe_below) at h)
    | inl safe ↦ elim (Bool-cases (d.owner == uid)) [
      | inl mine ↦ (
        rw (there, safe, mine, is_accepted) refl,
        inl (rw (there, mine, is_own) refl, rw (there, safe, mine, unsafe_below) at h),
      )
      | inr not_mine ↦ elim (Bool-cases (is_shared d)) [
        | inl common ↦ (
          rw (there, safe, not_mine, common, is_accepted) refl,
          inr (
              inl (
                rw (there, not_mine, common, is_own) refl,
                rw (there, safe, not_mine, common, unsafe_below) at h,
              )),
        )
        | inr alone ↦ elim (Bool-cases (not (d.owner == 0) || controlled || shared_sticky)) [
          | inl foreign ↦ cc (rw (there, safe, not_mine, alone, foreign, unsafe_below) at h)
          | inr root ↦
              let by_root : (d.owner == 0) ≡ true = ground (arith, root) in
              let outside : (controlled || shared_sticky) ≡ false = ground (arith, root) in
              (
                rw (there, safe, not_mine, alone, by_root, is_accepted) refl,
                inr (
                    inr (
                      rw (there, not_mine, alone, is_own) refl,
                      outside,
                      rw (there, safe, not_mine, alone, root, unsafe_below) at h,
                    )),
              )
        ]
      ]
    ]
  ]
]

-- Once the path has left what only root controls, no component of root or of another user follows.
entered_safe :
    (uid : ℕ) (controlled shared_sticky : Bool) (cs : List Component)
    → (controlled || shared_sticky) ≡ true
    → unsafe_below uid controlled shared_sticky cs ≡ none
    → (all (is_accepted uid) cs ≡ true) × (all (is_own uid) cs ≡ true)
entered_safe uid controlled shared_sticky [] inside h = (refl, refl)
entered_safe uid controlled shared_sticky (c ∷ cs) inside h =
    let (accepted, rest) = round uid controlled shared_sticky c cs h in
    elim rest [
      | inl (own, below) ↦
          let (safe, owned) = entered_safe uid true shared_sticky cs refl below in
          rw (accepted, own) (safe, owned)
      | inr (inl (own, below)) ↦
          let (safe, owned) = entered_safe uid false true cs refl below in
          rw (accepted, own) (safe, owned)
      | inr (inr (_, outside, _)) ↦ absurd (cc (inside, outside))
    ]

-- A path for which no unsafe ancestor is reported is safe from the root down: each component is a
-- directory that others cannot write to, or a sticky one, of the user, of root, or shared; and below
-- the first one that is the user's or shared, each is the user's or shared.
pub unsafe_ancestor_sound :
    (uid : ℕ) (cs : List Component)
    → unsafe_ancestor uid cs ≡ none
    → (all (is_accepted uid) cs ≡ true) × (all (is_own uid) (below_own uid cs) ≡ true)
unsafe_ancestor_sound uid [] h = (refl, refl)
unsafe_ancestor_sound uid (c ∷ cs) h =
    let (accepted, rest) = round uid false false c cs h in
    elim rest [
      | inl (own, below) ↦
          let (safe, owned) = entered_safe uid true false cs refl below in
          rw (accepted, own) (safe, owned)
      | inr (inl (own, below)) ↦
          let (safe, owned) = entered_safe uid false true cs refl below in
          rw (accepted, own) (safe, owned)
      | inr (inr (foreign, _, below)) ↦
          let (safe, owned) = unsafe_ancestor_sound uid cs below in
          rw (accepted, foreign) (safe, owned)
    ]
