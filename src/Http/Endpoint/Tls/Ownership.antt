-- ===== src/Http/Endpoint/Tls/Ownership.antt =====
-- Who frees the TLS material: what the destructor passes to mg_free, against what mg_strdup allocated.
use mongoose_cpp.Prelude.{
  ℕ, ◌≡◌, refl, sym, ap, false, List, [], ◌∷◌, ◌++◌, Bytes, if◌then◌else◌, All, concat, map,
  append-nil, append_assoc, ◌⊎◌, inl, inr, length, ltb, Bool-cases, subst, arith,
}
use mathlib.Core.List.{Sublistᴰ}
use mathlib.Core.List.Sublistᴰ
use mongoose_cpp.Mongoose.{Pointer, null, user, block, null_str}
use mongoose_cpp.Http.Headers.{is_empty}
use mongoose_cpp.Http.Endpoint.State.{Endpoint, new}
use mongoose_cpp.Http.Endpoint.Tls.{
  Copied, UseTls, tls, mtls, tls_view, mtls_view, is_mtls, use_tls_call, use_all, destroy,
}

-- The block of the allocator that a pointer leads to, if any.
abbrev pub blocks : Pointer → List ℕ
blocks null = []
blocks (user address) = []
blocks (block k) = k ∷ []

abbrev pub NotUser : Pointer → Type 0
NotUser null = Unit
NotUser (user address) = ⊥
NotUser (block k) = Unit

-- What `mg_strdup` returns: a block with the bytes of a text that has some, or the null string.
abbrev pub Duplicates : Copied → Type 0
Duplicates c =
    (c.copy ≡ null_str)
    ⊎ ((k : ℕ) × (c.copy ≡ record { buf = block k; bytes = c.text }) × (is_empty c.text ≡ false))

-- The calls with strings, and those with views.
abbrev pub IsCopying : UseTls → Type 0
IsCopying (tls cert key) = Duplicates cert × Duplicates key
IsCopying (mtls ca cert key) = Duplicates ca × Duplicates cert × Duplicates key
IsCopying _ = ⊥

abbrev pub IsViewing : UseTls → Type 0
IsViewing (tls_view cert key) = Unit
IsViewing (mtls_view ca cert key) = Unit
IsViewing _ = ⊥

-- The blocks that a call allocates.
abbrev pub allocated : UseTls → List ℕ
allocated (tls cert key) = blocks cert.copy.buf ++ blocks key.copy.buf
allocated (mtls ca cert key) = blocks ca.copy.buf ++ (blocks cert.copy.buf ++ blocks key.copy.buf)
allocated _ = []

abbrev pub freed_blocks : List Pointer → List ℕ
freed_blocks pointers = concat (map blocks pointers)

-- The members lead to blocks among those allocated so far, in the order of their allocation.
record Owns (e : Endpoint) (blocks_so_far : List ℕ) : Type 0 where
  ca : NotUser e.tls_ca.buf
  cert : NotUser e.tls_cert.buf
  key : NotUser e.tls_key.buf
  held :
      Sublistᴰ
        (blocks e.tls_ca.buf ++ (blocks e.tls_cert.buf ++ blocks e.tls_key.buf))
        blocks_so_far

NotUser-copy : (c : Copied) → Duplicates c → NotUser c.copy.buf
NotUser-copy c (inl e) = subst (λ s. NotUser s.buf) (sym e) tt
NotUser-copy c (inr (k, e, h)) = subst (λ s. NotUser s.buf) (sym e) tt

sublist_left : (a b : List ℕ) {c : List ℕ} → Sublistᴰ (a ++ b) c → Sublistᴰ a c
sublist_left a b h =
    Sublistᴰ.trans
      (subst (λ l. Sublistᴰ l (a ++ b)) (append-nil a)
        (Sublistᴰ.append (Sublistᴰ.refl a) (Sublistᴰ.nil-sublist b)))
      h

sublist_right : (a b : List ℕ) {c : List ℕ} → Sublistᴰ (a ++ b) c → Sublistᴰ b c
sublist_right a b h = Sublistᴰ.trans (Sublistᴰ.append (Sublistᴰ.nil-sublist a) (Sublistᴰ.refl b)) h

use_tls_call-Owns :
    (e : Endpoint) (call : UseTls) (acc : List ℕ)
    → IsCopying call
    → Owns e acc
    → Owns (use_tls_call e call) (acc ++ allocated call)
unfolding use_tls_call
use_tls_call-Owns e (tls cert key) acc (c, k) o = record {
  ca = o.ca;
  cert = NotUser-copy cert c;
  key = NotUser-copy key k;
  held = Sublistᴰ.append (sublist_left (blocks e.tls_ca.buf) _ o.held) (Sublistᴰ.refl _);
}
use_tls_call-Owns e (mtls ca cert key) acc (a, c, k) o = record {
  ca = NotUser-copy ca a;
  cert = NotUser-copy cert c;
  key = NotUser-copy key k;
  held = Sublistᴰ.append (Sublistᴰ.nil-sublist acc) (Sublistᴰ.refl _);
}
use_tls_call-Owns e (tls_view cert key) acc h o = elim h [ ]
use_tls_call-Owns e (mtls_view ca cert key) acc h o = elim h [ ]

use_all-Owns :
    (e : Endpoint) (calls : List UseTls) (acc : List ℕ)
    → All IsCopying calls
    → Owns e acc
    → Owns (use_all e calls) (acc ++ concat (map allocated calls))
unfolding use_all
use_all-Owns e [] acc h o = subst (Owns e) (sym (append-nil acc)) o
use_all-Owns e (call ∷ calls) acc h o =
    subst (Owns (use_all (use_tls_call e call) calls))
      (append_assoc acc (allocated call) (concat (map allocated calls)))
      (use_all-Owns (use_tls_call e call) calls (acc ++ allocated call) h.1
        (use_tls_call-Owns e call acc h.0 o))

use_all-view_alloc :
    (e : Endpoint) (calls : List UseTls)
    → All IsViewing calls
    → (use_all e calls).tls_alloc ≡ e.tls_alloc
unfolding use_all use_tls_call
use_all-view_alloc e [] h = refl
use_all-view_alloc e (tls_view cert key ∷ calls) h =
    use_all-view_alloc (use_tls_call e (tls_view cert key)) calls h.1
use_all-view_alloc e (mtls_view ca cert key ∷ calls) h =
    use_all-view_alloc (use_tls_call e (mtls_view ca cert key)) calls h.1
use_all-view_alloc e (tls cert key ∷ calls) h = elim h.0 [ ]
use_all-view_alloc e (mtls ca cert key ∷ calls) h = elim h.0 [ ]

abbrev FreesOwn : List Pointer → List ℕ → Type 0
FreesOwn freed acc = All NotUser freed × Sublistᴰ (freed_blocks freed) acc

destroy-Owns : (e : Endpoint) (acc : List ℕ) → Owns e acc → FreesOwn (destroy e).0 acc
unfolding destroy
destroy-Owns e acc o = elim (Bool-cases e.tls_alloc) [
  | inr p ↦ rw p (tt, Sublistᴰ.nil-sublist acc)
  | inl p ↦ elim (Bool-cases (is_mtls e)) [
    | inl q ↦ rw p (rw q ((o.ca, (o.cert, (o.key, tt))), with_nil (blocks e.tls_ca.buf) o.held))
    | inr q ↦
        rw p
          (rw q ((o.cert, (o.key, tt)), with_nil [] (sublist_right (blocks e.tls_ca.buf) _ o.held)))
  ]
]
  where
    with_nil :
        (a : List ℕ)
        → Sublistᴰ (a ++ (blocks e.tls_cert.buf ++ blocks e.tls_key.buf)) acc
        → Sublistᴰ (a ++ (blocks e.tls_cert.buf ++ (blocks e.tls_key.buf ++ []))) acc
    with_nil a h = rw (append-nil (blocks e.tls_key.buf)) h

destroy-unowned : (e : Endpoint) → e.tls_alloc ≡ false → (destroy e).0 ≡ []
unfolding destroy
destroy-unowned e p = rw p refl

-- Where all calls of `use_tls` on a new endpoint are with strings, or all with views, and `mg_strdup`
-- returns a new block or null, the destructor frees no memory of the user; the blocks that it frees
-- are some of those that the calls allocated, each as often as it was allocated at most.
pub frees_own_blocks :
    (calls : List UseTls)
    → All IsCopying calls ⊎ All IsViewing calls
    → let freed = (destroy (use_all new calls)).0 in
      All NotUser freed × Sublistᴰ (freed_blocks freed) (concat (map allocated calls))
unfolding new
frees_own_blocks calls (inl h) =
    destroy-Owns (use_all new calls) _
      (use_all-Owns new calls [] h (record { ca = tt; cert = tt; key = tt; held = Sublistᴰ.slnil }))
frees_own_blocks calls (inr h) =
    subst (λ freed. FreesOwn freed (concat (map allocated calls)))
      (sym (destroy-unowned (use_all new calls) (use_all-view_alloc new calls h)))
      (tt, Sublistᴰ.nil-sublist _)

null_or_block :
    (c : Copied)
    → Duplicates c
    → (if ltb 0 (length c.copy.bytes) then blocks c.copy.buf else []) ≡ blocks c.copy.buf
null_or_block c (inl e) =
    subst (λ s. (if ltb 0 (length s.bytes) then blocks s.buf else []) ≡ blocks s.buf) (sym e) refl
null_or_block c (inr (k, e, h)) =
    subst (λ s. (if ltb 0 (length s.bytes) then blocks s.buf else []) ≡ blocks s.buf) (sym e)
      (some_text c.text h)
  where
    some_text :
        (text : Bytes)
        → is_empty text ≡ false
        → (if ltb 0 (length text) then k ∷ [] else []) ≡ k ∷ []
    some_text [] h = ground (arith, h)
    some_text (x ∷ text) h = ground arith

-- An endpoint on which `use_tls` was called once, with strings, gives back exactly the blocks of that
-- call, where `mg_strdup` returns a new block or null.
frees_all_once :
    (call : UseTls)
    → IsCopying call
    → freed_blocks (destroy (use_tls_call new call)).0 ≡ allocated call
unfolding use_tls_call new destroy is_mtls
frees_all_once (tls cert key) h = ap (λ l. blocks cert.copy.buf ++ l) (append-nil _)
frees_all_once (mtls ca cert key) (a, c, k) = elim (Bool-cases (ltb 0 (length ca.copy.bytes))) [
  | inl p ↦ rw p (rw (append-nil (blocks key.copy.buf)) refl)
  | inr p ↦ rw p (
      rw (append-nil (blocks key.copy.buf)) (
        ap (λ l. l ++ (blocks cert.copy.buf ++ blocks key.copy.buf))
          (subst (λ b. (if b then blocks ca.copy.buf else []) ≡ blocks ca.copy.buf) p
            (null_or_block ca a))))
]
frees_all_once (tls_view cert key) h = elim h [ ]
frees_all_once (mtls_view ca cert key) h = elim h [ ]
