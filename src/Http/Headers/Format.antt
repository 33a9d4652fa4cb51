-- ===== src/Http/Headers/Format.antt =====
-- The text of the header map, and a reader of such text that shows what it says.
use mongoose_cpp.Prelude.{
  ◌≡◌, ◌≢◌, refl, sym, ap, ◌∙◌, Bool, true, false, not, ◌&&◌, ℕ, List, [], ◌∷◌, ◌++◌, Bytes, All,
  arith, ◌==◌, if◌then◌else◌, append_assoc, append-nil, Option, none, some, codes,
}
use mongoose_cpp.Table.Order.{Order, All-visit}
use mongoose_cpp.Http.Headers.{Entry, Headers, format, format_loop, default_line, is_empty}

-- A reader of header lines, written as a machine over bytes: `name: value\r\n`. Any other byte
-- behind the colon or the carriage return breaks it for good.
pub data Mode : Type 0 where
  in_name after_colon in_value after_cr broken : Mode

pub record Reader : Type 0 where
  pub mode : Mode
  pub name : Bytes
  pub value : Bytes
  pub lines : List Entry

abbrev pub put : Mode → ℕ → Reader → Reader
put in_name c r =
    if c == 58 then record r { mode = after_colon } else record r { name = r.name ++ c ∷ [] }
put after_colon c r = if c == 32 then record r { mode = in_value } else record r { mode = broken }
put in_value c r =
    if c == 13 then record r { mode = after_cr } else record r { value = r.value ++ c ∷ [] }
put after_cr c r =
    if c == 10
    then record { mode = in_name; name = []; value = []; lines = r.lines ++ (r.name, r.value) ∷ [] }
    else record r { mode = broken }
put broken c r = r

abbrev pub read : Reader → Bytes → Reader
read r [] = r
read r (c ∷ s) = read (put r.mode c r) s

abbrev pub start : List Entry → Reader
start lines = record { mode = in_name; name = []; value = []; lines = lines }

-- A text that ends inside a line is none.
abbrev pub finished : Mode → Bytes → List Entry → Option (List Entry)
finished in_name [] lines = some lines
finished in_name (c ∷ s) lines = none
finished after_colon name lines = none
finished in_value name lines = none
finished after_cr name lines = none
finished broken name lines = none

abbrev pub reading : Reader → Option (List Entry)
reading r = finished r.mode r.name r.lines

-- The entries that a reader of the text finds, where it consists of such lines.
abbrev pub decode : Bytes → Option (List Entry)
decode s = reading (read (start []) s)

abbrev pub avoids : ℕ → Bytes → Bool
avoids stop [] = true
avoids stop (c ∷ s) = not (c == stop) && avoids stop s

-- No colon in the name, and no carriage return in the value.
abbrev pub IsPlain : Entry → Type 0
IsPlain e = (avoids 58 e.0 ≡ true) × (avoids 13 e.1 ≡ true)

read-append : (r : Reader) (s t : Bytes) → read r (s ++ t) ≡ read (read r s) t
read-append r [] t = refl
read-append r (c ∷ s) t = read-append (put r.mode c r) s t

avoids_cons :
    (k c : ℕ) (s : Bytes) → avoids k (c ∷ s) ≡ true → ((c == k) ≡ false) × (avoids k s ≡ true)
avoids_cons k c s h = ground arith

read_name :
    (n v name : Bytes) (ls : List Entry)
    → avoids 58 name ≡ true
    → read (record { mode = in_name; name = n; value = v; lines = ls }) name
      ≡ record { mode = in_name; name = n ++ name; value = v; lines = ls }
read_name n v [] ls h = rw (append-nil n)
read_name n v (c ∷ s) ls h =
    rw (avoids_cons 58 c s h).0
      (rw (read_name (n ++ c ∷ []) v s ls (avoids_cons 58 c s h).1) (rw append_assoc))

read_value :
    (n v value : Bytes) (ls : List Entry)
    → avoids 13 value ≡ true
    → read (record { mode = in_value; name = n; value = v; lines = ls }) value
      ≡ record { mode = in_value; name = n; value = v ++ value; lines = ls }
read_value n v [] ls h = rw (append-nil v)
read_value n v (c ∷ s) ls h =
    rw (avoids_cons 13 c s h).0
      (rw (read_value n (v ++ c ∷ []) s ls (avoids_cons 13 c s h).1) (rw append_assoc))

abbrev line : Entry → Bytes
line (name, value) = name ++ 58 ∷ 32 ∷ (value ++ 13 ∷ 10 ∷ [])

abbrev text : List Entry → Bytes
text [] = []
text (e ∷ es) = line e ++ text es

format_loop-text : (s : Bytes) (es : List Entry) → format_loop s es ≡ s ++ text es
unfolding format_loop
format_loop-text s [] = sym (append-nil s)
format_loop-text s ((n, v) ∷ es) = format_loop-text _ es ∙ simp append_assoc

read-line :
    (e : Entry) (ls : List Entry) → IsPlain e → read (start ls) (line e) ≡ start (ls ++ e ∷ [])
read-line (n, v) ls h =
    rw (read-append (start ls) n (58 ∷ 32 ∷ (v ++ 13 ∷ 10 ∷ [])), read_name [] [] n ls h.0)
      (rw (
        read-append (record { mode = in_value; name = n; value = []; lines = ls }) v (13 ∷ 10 ∷ []),
        read_value n [] v ls h.1,
      ))

read-text :
    (es : List Entry) (ls : List Entry)
    → All IsPlain es
    → read (start ls) (text es) ≡ start (ls ++ es)
read-text [] ls h = rw (append-nil ls)
read-text (e ∷ es) ls h =
    read-append (start ls) (line e) (text es)
    ∙ ap (λ r. read r (text es)) (read-line e ls h.0)
    ∙ read-text es (ls ++ e ∷ []) h.1
    ∙ ap start (append_assoc ls (e ∷ []) es)

text_head : (e : Entry) (es : List Entry) → (c : ℕ) × (s : Bytes) × (text (e ∷ es) ≡ c ∷ s)
text_head ([], v) es = (58, 32 ∷ (v ++ 13 ∷ 10 ∷ []) ++ text es, refl)
text_head (c ∷ n, v) es = (c, (n ++ 58 ∷ 32 ∷ (v ++ 13 ∷ 10 ∷ [])) ++ text es, refl)

-- The text of visited entries, or the default line where there is none.
with_default : List Entry → Bytes
with_default [] = default_line
with_default (e ∷ es) = text (e ∷ es)

format-with_default :
    (o : Order Entry) (h : Headers) (capacity : ℕ)
    → format o h false capacity ≡ with_default (o.visit h)
unfolding format with_default
format-with_default o h capacity = rw (format_loop-text [] (o.visit h)) (go (o.visit h))
  where
    go :
        (es : List Entry)
        → (if not false && is_empty (text es) then text es ++ default_line else text es)
          ≡ with_default es
    go [] = refl
    go (e ∷ es) = let (c, s, p) = text_head e es in rw p

-- What the text says where the map is empty.
abbrev pub or_default : List Entry → List Entry
or_default [] = (codes "Content-Type", codes "text/plain") ∷ []
or_default (e ∷ es) = e ∷ es

decode-text : (es : List Entry) → All IsPlain es → decode (text es) ≡ some es
decode-text es plain = ap reading (read-text es [] plain)

decode-with_default :
    (es : List Entry) → All IsPlain es → decode (with_default es) ≡ some (or_default es)
unfolding with_default
decode-with_default [] plain = refl
decode-with_default (e ∷ es) plain = decode-text (e ∷ es) plain

format_empty :
    (o : Order Entry) (h : Headers) (capacity : ℕ) → format o h true capacity ≡ text (o.visit h)
unfolding format
format_empty o h capacity = format_loop-text [] (o.visit h)

-- The text of a map whose names hold no colon and whose values hold no carriage return is made of
-- lines `name: value\r\n` and reads back as the map's entries, each once and unchanged, whatever the
-- order of iteration; without `empty`, an empty map reads back as the one entry that declares plain
-- text.
pub decode-format :
    (o : Order Entry) (h : Headers) (capacity : ℕ)
    → All IsPlain h
    → (decode (format o h true capacity) ≡ some (o.visit h))
      × (decode (format o h false capacity) ≡ some (or_default (o.visit h)))
decode-format o h capacity plain =
    let seen = All-visit IsPlain o h plain in
    (
      ap decode (format_empty o h capacity) ∙ decode-text (o.visit h) seen,
      ap decode (format-with_default o h capacity) ∙ decode-with_default (o.visit h) seen,
    )

with_default_cases :
    (es : List Entry)
    → (with_default es ≢ [])
      × (with_default es ≡ (if is_empty (text es) then default_line else text es))
unfolding with_default
with_default_cases [] = (λ e. cc, refl)
with_default_cases (e ∷ es) = let (c, s, p) = text_head e es in (λ q. cc (p, q), rw p)

-- Without `empty`, the text is never empty: it is the text with `empty`, or the one line that
-- declares plain text where that is empty.
format_default :
    (o : Order Entry) (h : Headers) (capacity : ℕ)
    → (format o h false capacity ≢ [])
      × (format o h false capacity ≡ (
          if is_empty (format o h true capacity) then default_line else format o h true capacity))
format_default o h capacity =
    rw (format-with_default o h capacity, format_empty o h capacity)
      (with_default_cases (o.visit h))
