-- ===== src/Http/Headers/Laws.antt =====
-- The header map against its history: what a reader finds after any sequence of writes.
use mongoose_cpp.Prelude.{
  ◌≡◌, ap, refl, sym, ◌∙◌, Bool, true, false, ℕ, ◌+◌, ◌==◌, ltb, ◌&&◌, ◌||◌, length, List, [], ◌∷◌,
  Option, none, some, Bytes, arith, if◌then◌else◌, Option-cases, inl, inr, suc,
}
use mongoose_cpp.Table.{find, IsFresh, IsUnique}
use mongoose_cpp.Table.Laws.{
  find-assign, find-erase, assign-IsUnique, erase-IsUnique, length-assign, length-erase, find_congr,
}
use mongoose_cpp.Http.Headers.Key.{is_equal, name_key, to_lower, equal_lower}
use mongoose_cpp.Http.Headers.{
  Entry, Headers, get, get_view, has, set, remove, clear, size, is_some,
}

-- The calls that change the map.
pub data Write : Type 0 where
  setting : Bytes → Bytes → Write
  removing : Bytes → Write
  clearing : Write

unfoldable pub apply : Headers → Write → Headers
apply h (setting name value) = set h name value
apply h (removing name) = remove h name
apply h clearing = clear h

unfoldable pub apply_all : Headers → List Write → Headers
unfolding apply
apply_all h [] = h
apply_all h (w ∷ ws) = apply_all (apply h w) ws

-- Two bytes are the same one, or the upper and the lower case of one ASCII letter.
abbrev pub is_upper : ℕ → Bool
is_upper c = ltb 64 c && ltb c 91

abbrev pub same_letter : ℕ → ℕ → Bool
same_letter a b = a == b || is_upper a && b == a + 32 || is_upper b && a == b + 32

-- Two names are the same one in any case of their letters.
abbrev pub same_name : Bytes → Bytes → Bool
same_name [] [] = true
same_name [] (b ∷ t) = false
same_name (a ∷ s) [] = false
same_name (a ∷ s) (b ∷ t) = same_letter a b && same_name s t

-- No later entry spells the name, and no two entries spell one name.
abbrev pub IsNew : Bytes → List Entry → Type 0
IsNew name [] = Unit
IsNew name ((n, v) ∷ es) = (same_name n name ≡ false) × IsNew name es

abbrev pub NamesDiffer : List Entry → Type 0
NamesDiffer [] = Unit
NamesDiffer ((n, v) ∷ es) = IsNew n es × NamesDiffer es

to_lower-same_letter : (a b : ℕ) → (to_lower a == to_lower b) ≡ same_letter a b
unfolding to_lower
to_lower-same_letter a b = ground arith

equal_lower-same_name : (s t : Bytes) → (length s == length t && equal_lower s t) ≡ same_name s t
unfolding equal_lower
equal_lower-same_name [] [] = refl
equal_lower-same_name [] (b ∷ t) = ground arith
equal_lower-same_name (a ∷ s) [] = ground arith
equal_lower-same_name (a ∷ s) (b ∷ t) =
    ground (arith, equal_lower-same_name s t, to_lower-same_letter a b)

is_equal-same_name : (s t : Bytes) → is_equal s t ≡ same_name s t
unfolding is_equal
is_equal-same_name s t = equal_lower-same_name s t

IsFresh-IsNew : (name : Bytes) (h : Headers) → IsFresh name_key name h → IsNew name h
unfolding name_key
IsFresh-IsNew name [] f = tt
IsFresh-IsNew name ((n, v) ∷ h) f =
    (sym (is_equal-same_name n name) ∙ f.0, IsFresh-IsNew name h f.1)

IsUnique-NamesDiffer : (h : Headers) → IsUnique name_key h → NamesDiffer h
IsUnique-NamesDiffer [] u = tt
IsUnique-NamesDiffer ((n, v) ∷ h) u = (IsFresh-IsNew n h u.0, IsUnique-NamesDiffer h u.1)

-- The abstract map: what one name stands for, written by the last call that concerns it.
abbrev pub write_effect : Bytes → Option Bytes → Write → Option Bytes
write_effect name old (setting n v) = if same_name n name then some v else old
write_effect name old (removing n) = if same_name n name then none else old
write_effect name old clearing = none

abbrev pub last_write : Bytes → Option Bytes → List Write → Option Bytes
last_write name old [] = old
last_write name old (w ∷ ws) = last_write name (write_effect name old w) ws

remove-erase :
    (h : Headers) (name other : Bytes)
    → IsUnique name_key h
    → get (remove h name) other ≡ (if is_equal name other then none else get h other)
unfolding get remove name_key
remove-erase h name other u = elim (Option-cases (find name_key name h)) [
  | inl e ↦ rw (e, remove) (ground (arith, e, find_congr name_key name other h))
  | inr (v, e) ↦ rw (e, remove) (find-erase name_key name other h u)
]

pub apply-IsUnique : (h : Headers) (w : Write) → IsUnique name_key h → IsUnique name_key (apply h w)
unfolding apply set remove clear
apply-IsUnique h (setting name value) u = assign-IsUnique name_key name value h u
apply-IsUnique h (removing name) u = ground (arith, u, erase-IsUnique name_key name h u)
apply-IsUnique h clearing u = tt

get-apply :
    (h : Headers) (w : Write) (name : Bytes)
    → IsUnique name_key h
    → get (apply h w) name ≡ write_effect name (get h name) w
unfolding apply get set clear name_key find
get-apply h (setting n v) name u =
    find-assign name_key n name v h
    ∙ ap (λ z. if z then some v else find name_key name h) (is_equal-same_name n name)
get-apply h (removing n) name u =
    remove-erase h n name u
    ∙ ap (λ z. if z then none else find name_key name h) (is_equal-same_name n name)
get-apply h clearing name u = refl

pub apply_all-IsUnique :
    (h : Headers) (ws : List Write) → IsUnique name_key h → IsUnique name_key (apply_all h ws)
unfolding apply_all
apply_all-IsUnique h [] u = u
apply_all-IsUnique h (w ∷ ws) u = apply_all-IsUnique (apply h w) ws (apply-IsUnique h w u)

pub get-apply_all :
    (h : Headers) (ws : List Write) (name : Bytes)
    → IsUnique name_key h
    → get (apply_all h ws) name ≡ last_write name (get h name) ws
unfolding apply_all
get-apply_all h [] name u = refl
get-apply_all h (w ∷ ws) name u =
    get-apply_all (apply h w) ws name (apply-IsUnique h w u) ∙ (rw (get-apply h w name u))

-- After any calls of `set`, `remove` and `clear` on a fresh map, `get` returns the value of the
-- last `set` of the name, in any case of its letters, unless a later `remove` of it or a later
-- `clear` took it away; and no two entries of the map spell one name. Two spellings are of one name
-- when they are equally long and differ at most in the case of ASCII letters.
pub get_history :
    (ws : List Write) (name : Bytes)
    → (get (apply_all [] ws) name ≡ last_write name none ws) × NamesDiffer (apply_all [] ws)
unfolding get find
get_history ws name = (
  get-apply_all [] ws name tt,
  IsUnique-NamesDiffer (apply_all [] ws) (apply_all-IsUnique [] ws tt),
)

-- `has`, `get` and `get_view` agree, also between two spellings of one name.
lookup_agree :
    (h : Headers) (name other : Bytes)
    → is_equal name other ≡ true
    → (get_view h name ≡ get h other) × (has h name ≡ is_some (get h other))
unfolding get get_view has name_key
lookup_agree h name other e =
    (find_congr name_key name other h e, ap is_some (find_congr name_key name other h e))

-- `set` grows the map by one entry when the name is new and leaves the size alone otherwise;
-- `remove` takes away one entry when the name is there and none otherwise.
size_writes :
    (h : Headers) (name value : Bytes)
    → (size (set h name value) ≡ (if has h name then size h else suc (size h)))
      × (size h ≡ (if has h name then suc (size (remove h name)) else size (remove h name)))
unfolding size set remove has name_key
size_writes h name value = (
  ground (arith, length-assign name_key name value h),
  ground (arith, length-erase name_key name h),
)
