-- ===== src/Version/Order.antt =====
-- `dominates` is the strict pointwise order on the device counters.
use ferri_sync.Prelude.{
  ℕ, ◌+◌, ◌≤◌, ◌<◌, ◌≡◌, refl, ◌↔◌, ◌⊎◌, inl, inr, Bool, true, false, [], ◌∷◌, none, some, arith,
  string_eq, ◌==◌, eq_iff, if◌then◌else◌, ltb, Bool-cases, Option-cases, ap, ◌∙◌, sym, ◌≢◌, eq_refl,
}
use ferri_sync.Prelude.Maps.{HashMap, lookup, IsMap, lookup-tail, lookup-cons_self}
use ferri_sync.Version.{
  DeviceId, FileVersion, u64_mod, get, bump, any_greater, no_unknown, dominates, concurrent,
  IsVersion, get-bump, bump-IsVersion,
}

-- Every counter of `b` is at most that of `a`, and one is smaller.
abbrev pub Below : FileVersion → FileVersion → Type 0
Below b a = ((d : DeviceId) → get b d ≤ get a d) × ((d : DeviceId) × (get b d < get a d))

abbrev Bounds : FileVersion → HashMap DeviceId ℕ → Type 0
Bounds b m = (d : DeviceId) (n : ℕ) → lookup d m ≡ some n → get b d ≤ n

abbrev Exceeds : FileVersion → HashMap DeviceId ℕ → Type 0
Exceeds b m = (d : DeviceId) × (n : ℕ) × (lookup d m ≡ some n) × (get b d < n)

any_greater-Bounds :
    (b : FileVersion) (m : HashMap DeviceId ℕ) (any r : Bool)
    → any_greater b m any ≡ some r
    → Bounds b m
unfolding any_greater lookup
any_greater-Bounds b [] any r e d n p = cc
any_greater-Bounds b ((j, v) ∷ m) any r e d n p = ground (
  arith,
  eq_iff j d,
  λ (q : any_greater b m (if ltb (get b j) v then true else any) ≡ some r)
        (t : lookup d m ≡ some n).
      any_greater-Bounds b m _ r q d n t,
)

Exceeds-cons :
    (b : FileVersion) (j : DeviceId) (v : ℕ) (m : HashMap DeviceId ℕ) (any : Bool)
    → lookup j m ≡ none
    → ((if ltb (get b j) v then true else any) ≡ true) ⊎ Exceeds b m
    → (any ≡ true) ⊎ Exceeds b ((j, v) ∷ m)
Exceeds-cons b j v m any fresh (inl e) = elim (Bool-cases (ltb (get b j) v)) [
  | inl more ↦ inr (j, v, lookup-cons_self j v m, ground arith)
  | inr same ↦ inl (ground arith)
]
Exceeds-cons b j v m any fresh (inr (d, n, p, q)) = inr (d, n, lookup-tail j d v n m fresh p, q)

any_greater-Exceeds :
    (b : FileVersion) (m : HashMap DeviceId ℕ) (any : Bool)
    → IsMap m
    → any_greater b m any ≡ some true
    → (any ≡ true) ⊎ Exceeds b m
unfolding any_greater
any_greater-Exceeds b [] any h e = inl (cc)
any_greater-Exceeds b ((j, v) ∷ m) any h e = elim (Bool-cases (ltb v (get b j))) [
  | inl less ↦ cc (rw less at e)
  | inr good ↦ Exceeds-cons b j v m any h.0 (any_greater-Exceeds b m _ h.1 (rw good at e))
]

Exceeds-uncons :
    (b : FileVersion) (j : DeviceId) (v : ℕ) (m : HashMap DeviceId ℕ) (any : Bool)
    → (any ≡ true) ⊎ Exceeds b ((j, v) ∷ m)
    → ((if ltb (get b j) v then true else any) ≡ true) ⊎ Exceeds b m
unfolding lookup
Exceeds-uncons b j v m any (inl e) = inl (ground arith)
Exceeds-uncons b j v m any (inr (d, n, p, q)) = elim (Bool-cases (j == d)) [
  | inl hit ↦ inl (ground (arith, eq_iff j d))
  | inr miss ↦ inr (d, n, ground arith, q)
]

any_greater_complete :
    (b : FileVersion) (m : HashMap DeviceId ℕ) (any : Bool)
    → IsMap m
    → Bounds b m
    → (any ≡ true) ⊎ Exceeds b m
    → any_greater b m any ≡ some true
unfolding any_greater
any_greater_complete b [] any h l (inl e) = rw e
any_greater_complete b [] any h l (inr (d, n, p, q)) = unfold lookup in cc
any_greater_complete b ((j, v) ∷ m) any h l e = ground (
  arith,
  l j v (lookup-cons_self j v m),
  any_greater_complete b m (if ltb (get b j) v then true else any) h.1
      (λ d n p. l d n (lookup-tail j d v n m h.0 p)) (Exceeds-uncons b j v m any e),
)

-- What the second loop decides.
abbrev Known : FileVersion → HashMap DeviceId ℕ → Type 0
Known a m = (d : DeviceId) (n : ℕ) → lookup d m ≡ some n → lookup d a.versions ≡ none → n ≡ 0

no_unknown-Known : (a : FileVersion) (m : HashMap DeviceId ℕ) → no_unknown a m ≡ true → Known a m
unfolding no_unknown lookup
no_unknown-Known a [] e d n p q = cc
no_unknown-Known a ((j, v) ∷ m) e d n p q = ground (
  arith,
  eq_iff j d,
  λ (e' : no_unknown a m ≡ true) (t : lookup d m ≡ some n). no_unknown-Known a m e' d n t q,
)

no_unknown_complete :
    (a : FileVersion) (m : HashMap DeviceId ℕ) → IsMap m → Known a m → no_unknown a m ≡ true
unfolding no_unknown
no_unknown_complete a [] h k = refl
no_unknown_complete a ((j, v) ∷ m) h k = ground (
  arith,
  k j v (lookup-cons_self j v m),
  no_unknown_complete a m h.1 (λ d n p. k d n (lookup-tail j d v n m h.0 p)),
)

get_of_lookup :
    (v : FileVersion) (d : DeviceId) (n : ℕ) → lookup d v.versions ≡ some n → get v d ≡ n
unfolding get
get_of_lookup v d n e = rw e

get_of_missing : (v : FileVersion) (d : DeviceId) → lookup d v.versions ≡ none → get v d ≡ 0
unfolding get
get_of_missing v d e = rw e

pointwise :
    (a b : FileVersion)
    → Bounds b a.versions
    → Known a b.versions
    → (d : DeviceId) → get b d ≤ get a d
pointwise a b l k d = elim (Option-cases (lookup d a.versions)) [
  | inr (n, e) ↦ omega (arith, get_of_lookup a d n e, l d n e)
  | inl e ↦ elim (Option-cases (lookup d b.versions)) [
    | inl e' ↦ omega (arith, get_of_missing b d e')
    | inr (n, e') ↦ omega (arith, get_of_lookup b d n e', k d n e' e)
  ]
]

-- `dominates` decides the strict pointwise order.
pub dominates-Below : (a b : FileVersion) → IsVersion a → dominates a b ≡ true → Below b a
unfolding dominates
dominates-Below a b h e = elim (Option-cases (any_greater b a.versions false)) [
  | inl none_e ↦ cc (rw (none_e, dominates) at e)
  | inr (r, some_e) ↦
      let any : r ≡ true = ground arith in
      let known : no_unknown a b.versions ≡ true = ground arith in
      let l : Bounds b a.versions = any_greater-Bounds b a.versions false r some_e in
      (
        pointwise a b l (no_unknown-Known a b.versions known),
        exceeded (any_greater-Exceeds b a.versions false h (some_e ∙ ap some any)),
      )
]
  where
    exceeded : (false ≡ true) ⊎ Exceeds b a.versions → (d : DeviceId) × (get b d < get a d)
    exceeded (inl f) = cc
    exceeded (inr (d, n, p, q)) = (d, omega (arith, get_of_lookup a d n p))

pub Below-dominates :
    (a b : FileVersion) → IsVersion a → IsVersion b → Below b a → dominates a b ≡ true
unfolding dominates
Below-dominates a b ha hb (l, (d, q)) = rw (all, known, dominates) refl
  where
    found : Exceeds b a.versions
    found = elim (Option-cases (lookup d a.versions)) [
      | inl e ↦ absurd (omega (arith, get_of_missing a d e))
      | inr (n, e) ↦ (d, n, e, omega (arith, get_of_lookup a d n e))
    ]

    all : any_greater b a.versions false ≡ some true
    all =
        any_greater_complete b a.versions false ha
          (λ d n e. omega (arith, get_of_lookup a d n e, l d)) (inr found)

    known : no_unknown a b.versions ≡ true
    known =
        no_unknown_complete a b.versions hb
          (λ d n e e'. omega (arith, l d, get_of_lookup b d n e, get_of_missing a d e'))

-- `dominates` holds exactly if every counter of the other version is at most ours and one is smaller;
-- versions are maps without a repeated key.
pub dominates_iff :
    (a b : FileVersion) → IsVersion a → IsVersion b → (dominates a b ≡ true) ↔ Below b a
dominates_iff a b ha hb = (dominates-Below a b ha, Below-dominates a b ha hb)

not_true : (x : Bool) → (x ≡ true → ⊥) → x ≡ false
not_true true h = absurd (h refl)
not_true false h = refl

-- No version dominates itself.
pub dominates_irrefl : (a : FileVersion) → IsVersion a → dominates a a ≡ false
dominates_irrefl a h =
    not_true _
      (λ e. let p : Below a a = dominates-Below a a h e in let (d, q) = p.1 in omega (arith, q))

-- For three proper versions, domination is transitive.
pub dominates_trans :
    (a b c : FileVersion)
    → IsVersion a
    → IsVersion b
    → IsVersion c
    → dominates a b ≡ true
    → dominates b c ≡ true
    → dominates a c ≡ true
dominates_trans a b c ha hb hc p q =
    let u : Below b a = dominates-Below a b ha p in
    let w : Below c b = dominates-Below b c hb q in
    let (d, less) = u.1 in
    Below-dominates a c ha hc (λ x. omega (arith, u.0 x, w.0 x), (d, omega (arith, less, w.0 d)))

-- At most one of two versions dominates the other.
pub dominates_asymm :
    (a b : FileVersion) → IsVersion a → IsVersion b → dominates a b ≡ true → dominates b a ≡ false
dominates_asymm a b ha hb p = not_true _ (λ q.
    let u : Below b a = dominates-Below a b ha p in
    let w : Below a b = dominates-Below b a hb q in
    let (d, less) = u.1 in omega (arith, less, w.0 d))

pub concurrent_symm : (a b : FileVersion) → concurrent a b ≡ concurrent b a
unfolding concurrent
concurrent_symm a b = ground arith

-- A device that counts a change of its own, with its counter below the limit of `u64`, gets a
-- version that dominates the proper version before it.
pub bump-dominates :
    (v : FileVersion) (d : DeviceId)
    → IsVersion v
    → get v d + 1 < u64_mod
    → dominates (bump v d) v ≡ true
bump-dominates v d h room = Below-dominates (bump v d) v (bump-IsVersion v d h) h (
  λ x. ground (arith, get-bump v d x, eq_iff d x),
  (d, ground (arith, get-bump v d d, eq_refl d)),
)

-- Two different devices that each count one change from the same proper version, with counters
-- below the limit of `u64`, get concurrent versions.
pub bump_apart-concurrent :
    (v : FileVersion) (d d' : DeviceId)
    → IsVersion v
    → d ≢ d'
    → get v d + 1 < u64_mod
    → get v d' + 1 < u64_mod
    → concurrent (bump v d) (bump v d') ≡ true
unfolding concurrent
bump_apart-concurrent v d d' h apart room room' =
    rw (behind d d' apart room', behind d' d (λ e. apart (sym e)) room, concurrent) refl
  where
    behind :
        (x y : DeviceId) → x ≢ y → get v y + 1 < u64_mod → dominates (bump v x) (bump v y) ≡ false
    behind x y ne room = not_true _ (λ p.
        let u : Below (bump v y) (bump v x) =
          dominates-Below (bump v x) (bump v y) (bump-IsVersion v x h) p in
        ground (arith, u.0 y, get-bump v x y, get-bump v y y, eq_iff x y, eq_refl y))

pub concurrent-dominates :
    (a b : FileVersion) → concurrent a b ≡ true → (dominates a b ≡ false) × (dominates b a ≡ false)
unfolding concurrent
concurrent-dominates a b h = ground (arith, h)
