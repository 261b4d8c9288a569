-- ===== src/Client/Response/Stream.antt =====
-- src/est/est_client_http.c, est_io_read_raw: the bytes of a response, as the reads of the connection give
-- them.
use aims_libest.Prelude.{
  ℕ, zero, suc, ◌-◌, ◌≤◌, ◌<◌, Bytes, List, [], ◌∷◌, ◌++◌, Option, none, some, Bool, false, leb,
  ◌==◌, ◌≡◌, refl, sym, ap, ◌∙◌, inl, inr, arith, length, length-append, take, Bool-cases,
  Option-cases,
}
use aims_libest.Client.Response.{est_ca_max, read_raw, io_read_raw}

-- what the reads give before the first that gives nothing
abbrev pub stream : List (Option Bytes) → Bytes
stream [] = []
stream (none ∷ reads) = []
stream (some [] ∷ reads) = []
stream (some (c ∷ s) ∷ reads) = (c ∷ s) ++ stream reads

take_le : (n : ℕ) (a b : Bytes) → n ≤ length a → take n (a ++ b) ≡ take n a
take_le zero a b h = refl
take_le (suc n) [] b h = absurd (omega arith)
take_le (suc n) (c ∷ a) b h = ap (λ s. c ∷ s) (take_le n a b (omega arith))

take_gt : (n : ℕ) (a b : Bytes) → length a ≤ n → take n (a ++ b) ≡ a ++ take (n - length a) b
take_gt n [] b h = ap (λ m. take m b) (omega arith)
take_gt zero (c ∷ a) b h = absurd (omega arith)
take_gt (suc n) (c ∷ a) b h =
    let e : n - length a ≡ suc n - length (c ∷ a) = omega arith in
    ap (λ s. c ∷ s) (take_gt n a b (omega arith) ∙ ap (λ m. a ++ take m b) e)

length-take : (n : ℕ) (s : Bytes) → length (take n s) ≤ n
length-take zero s = omega arith
length-take (suc n) [] = omega arith
length-take (suc n) (c ∷ s) = omega (arith, length-take n s)

take_nil : (n : ℕ) → take {A = ℕ} n [] ≡ []
take_nil zero = refl
take_nil (suc n) = refl

-- A response that is read is the beginning of what the connection gives, as far as the buffer holds it.
read_raw-stream :
    (space : ℕ) (reads : List (Option Bytes)) (buf : Bytes)
    → read_raw space reads ≡ some buf
    → (buf ≡ take space (stream reads)) × (length buf ≤ space)
unfolding read_raw
read_raw-stream space [] buf h =
    let e : buf ≡ [] = ground arith in (e ∙ sym (take_nil space), rw e (omega arith))
read_raw-stream space (none ∷ reads) buf h = absurd (ground arith)
read_raw-stream space (some [] ∷ reads) buf h =
    let e : buf ≡ [] = ground arith in (e ∙ sym (take_nil space), rw e (omega arith))
read_raw-stream space (some (c ∷ s) ∷ reads) buf h =
    elim (Bool-cases (leb space (length (c ∷ s)))) [
      | inl l ↦
          let e : buf ≡ take space (c ∷ s) = ground arith in
          let k : space ≤ length (c ∷ s) = ground arith in
          (e ∙ sym (take_le space (c ∷ s) (stream reads) k), rw e (length-take space (c ∷ s)))
      | inr l ↦ elim (Option-cases (read_raw (space - length (c ∷ s)) reads)) [
        | inl z ↦ absurd (ground arith)
        | inr (more, z) ↦
            let e : buf ≡ (c ∷ s) ++ more = ground arith in
            let k : length (c ∷ s) ≤ space = ground arith in
            let (u, v) = read_raw-stream (space - length (c ∷ s)) reads more z in
            (
              e ∙ ap (λ r. (c ∷ s) ++ r) u ∙ sym (take_gt space (c ∷ s) (stream reads) k),
              rw e (omega (arith, v, k, length-append (c ∷ s) more)),
            )
      ]
    ]

-- every read gives a byte at least, until there is nothing more to read
abbrev pub Flows : List (Option Bytes) → Type 0
Flows [] = Unit
Flows (none ∷ reads) = ⊥
Flows (some [] ∷ reads) = ⊥
Flows (some (c ∷ s) ∷ reads) = Flows reads

read_raw-Flows :
    (space : ℕ) (reads : List (Option Bytes))
    → Flows reads
    → length (stream reads) < space
    → read_raw space reads ≡ some (stream reads)
unfolding read_raw
read_raw-Flows space [] flows fits = refl
read_raw-Flows space (none ∷ reads) flows fits = elim flows [ ]
read_raw-Flows space (some [] ∷ reads) flows fits = elim flows [ ]
read_raw-Flows space (some (c ∷ s) ∷ reads) flows fits =
    let l = length-append (c ∷ s) (stream reads) in
    let f : leb space (length (c ∷ s)) ≡ false = ground (arith, l, fits) in
    rw f (rw (read_raw-Flows (space - length (c ∷ s)) reads flows (omega (arith, l, fits))) refl)

pub io_read_raw-Flows :
    (reads : List (Option Bytes)) (peek : Bool)
    → Flows reads
    → length (stream reads) < 2000000
    → io_read_raw reads peek ≡ (none, stream reads)
unfolding io_read_raw est_ca_max
io_read_raw-Flows reads peek flows fits =
    let f : (length (stream reads) == 2000000) ≡ false = ground (arith, fits) in
    let e : read_raw 2000000 reads ≡ some (stream reads) =
      read_raw-Flows 2000000 reads flows fits in
    ground arith
