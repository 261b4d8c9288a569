-- ===== src/Client/Host/Wildcard.antt =====
-- src/est/est_client.c: which patterns with a wildcard a server's name matches.
use aims_libest.Prelude.{
  ℕ, zero, suc, ◌+◌, ◌-◌, ◌≤◌, Bytes, [], ◌∷◌, ◌++◌, Option, none, some, true, false, ltb, ◌==◌,
  length, codes, take, ◌≡◌, ◌≢◌, ◌↔◌, ◌⊎◌, inl, inr, refl, sym, ap, ◌∙◌, arith, Bool-cases,
  Option-cases, length-append,
}
use aims_libest.Client.Host.{
  raw_toupper, raw_equal, raw_nequal, strchr, from, wildcard_match, label_match, hostmatch, Names,
}

-- the string with its letters in upper case
abbrev pub upper : Bytes → Bytes
upper [] = []
upper (c ∷ s) = raw_toupper c ∷ upper s

pub raw_equal_iff : (a b : Bytes) → (raw_equal a b ≡ true) ↔ (upper a ≡ upper b)
unfolding raw_equal
raw_equal_iff [] [] = (λ _. refl, λ _. refl)
raw_equal_iff [] (y ∷ b) = ground arith
raw_equal_iff (x ∷ a) [] = ground arith
raw_equal_iff (x ∷ a) (y ∷ b) = ground (arith, raw_equal_iff a b)

pub raw_nequal_iff :
    (n : ℕ) (a b : Bytes) → (raw_nequal a b n ≡ true) ↔ (upper (take n a) ≡ upper (take n b))
unfolding raw_nequal
raw_nequal_iff zero a b = (λ _. refl, λ _. refl)
raw_nequal_iff (suc n) [] [] = (λ _. refl, λ _. refl)
raw_nequal_iff (suc n) [] (y ∷ b) = ground arith
raw_nequal_iff (suc n) (x ∷ a) [] = ground arith
raw_nequal_iff (suc n) (x ∷ a) (y ∷ b) = ground (arith, raw_nequal_iff n a b)

strchr-some :
    (s : Bytes) (c : ℕ) (before after : Bytes)
    → strchr s c ≡ some (before, after)
    → (s ≡ before ++ c ∷ after) × (strchr before c ≡ none)
unfolding strchr
strchr-some [] c before after h = absurd (ground arith)
strchr-some (x ∷ s) c [] after h = elim (Bool-cases (x == c)) [
  | inl b ↦ (ground arith, refl)
  | inr b ↦ elim (Option-cases (strchr s c)) [
    | inl z ↦ absurd (ground arith)
    | inr ((p, q), z) ↦ absurd (ground arith)
  ]
]
strchr-some (x ∷ s) c (b ∷ before) after h = elim (Bool-cases (x == c)) [
  | inl e ↦ absurd (ground arith)
  | inr e ↦ elim (Option-cases (strchr s c)) [
    | inl z ↦ absurd (ground arith)
    | inr ((p, q), z) ↦
        let (u, v) = strchr-some s c before after (ground arith) in
        let w : x ≡ b = ground arith in (cc (u, w), ground (arith, v, w, e))
  ]
]

take-append : (a b : Bytes) → take (length a) (a ++ b) ≡ a
take-append [] b = refl
take-append (x ∷ a) b = ap (λ s. x ∷ s) (take-append a b)

take-append_le : (k : ℕ) (a b : Bytes) → k ≤ length a → take k (a ++ b) ≡ take k a
take-append_le zero a b h = refl
take-append_le (suc k) [] b h = absurd (omega arith)
take-append_le (suc k) (x ∷ a) b h = ap (λ s. x ∷ s) (take-append_le k a b (omega arith))

from-append : (k : ℕ) (a b : Bytes) → k ≤ length a → from k (a ++ b) ≡ from k a ++ b
from-append zero a b h = refl
from-append (suc k) [] b h = absurd (omega arith)
from-append (suc k) (x ∷ a) b h = from-append k a b (omega arith)

length-from : (k : ℕ) (s : Bytes) → k ≤ length s → length (from k s) + k ≡ length s
length-from zero s h = omega arith
length-from (suc k) [] h = absurd (omega arith)
length-from (suc k) (x ∷ s) h = omega (arith, length-from k s (omega arith))

take_from : (k : ℕ) (s : Bytes) → take k s ++ from k s ≡ s
take_from zero s = refl
take_from (suc k) [] = refl
take_from (suc k) (x ∷ s) = ap (λ s. x ∷ s) (take_from k s)

from-nil : (n : ℕ) → from n [] ≡ []
from-nil zero = refl
from-nil (suc n) = refl

from-from : (k m : ℕ) (s : Bytes) → from m (from k s) ≡ from (k + m) s
from-from zero m s = ap (λ j. from j s) (omega arith)
from-from (suc k) m [] = from-nil m ∙ sym (from-nil (suc k + m))
from-from (suc k) m (x ∷ s) =
    let e : suc (k + m) ≡ suc k + m = omega arith in from-from k m s ∙ ap (λ j. from j (x ∷ s)) e

length-take : (k : ℕ) (s : Bytes) → k ≤ length s → length (take k s) ≡ k
length-take zero s h = refl
length-take (suc k) [] h = absurd (omega arith)
length-take (suc k) (x ∷ s) h = ap suc (length-take k s (omega arith))

-- a string cut at two places
cut : (k m : ℕ) (s : Bytes) → take k s ++ (take m (from k s) ++ from (k + m) s) ≡ s
cut k m s =
    ap (λ r. take k s ++ (take m (from k s) ++ r)) (sym (from-from k m s))
    ∙ ap (λ r. take k s ++ r) (take_from m (from k s))
    ∙ take_from k s

-- The wildcard lies in front of the first dot.
in_label :
    (prefix behind label rest : Bytes)
    → prefix ++ b'*' ∷ behind ≡ label ++ b'.' ∷ rest
    → length prefix ≤ length label
    → (suffix : Bytes) × (label ≡ prefix ++ b'*' ∷ suffix) × (behind ≡ suffix ++ b'.' ∷ rest)
in_label [] behind [] rest h l = absurd (ground arith)
in_label [] behind (c ∷ label) rest h l = (label, ground arith, ground arith)
in_label (p ∷ prefix) behind [] rest h l = absurd (omega arith)
in_label (p ∷ prefix) behind (c ∷ label) rest h l =
    let (suffix, u, v) = in_label prefix behind label rest (ground arith) (omega arith) in
    let w : c ≡ p = ground arith in (suffix, cc (u, w), v)

-- The pattern has its wildcard in the first of three labels at least; the wildcard stands for a byte at
-- least of the name's first label, and the rest is the same but for the case of the letters.
pub record Covers (pattern hostname : Bytes) : Type 0 where
  pub prefix : Bytes
  pub suffix : Bytes
  pub rest : Bytes
  pub host_prefix : Bytes
  pub middle : Bytes
  pub host_suffix : Bytes
  pub host_rest : Bytes
  pub is_pattern : pattern ≡ (prefix ++ b'*' ∷ suffix) ++ b'.' ∷ rest
  pub more_labels : strchr rest b'.' ≢ none
  pub is_name : hostname ≡ (host_prefix ++ (middle ++ host_suffix)) ++ b'.' ∷ host_rest
  pub one_label : strchr (host_prefix ++ (middle ++ host_suffix)) b'.' ≡ none
  pub not_empty : 1 ≤ length middle
  pub same_prefix : upper host_prefix ≡ upper prefix
  pub same_suffix : upper host_suffix ≡ upper suffix
  pub same_rest : upper host_rest ≡ upper rest

-- what wildcard_match asks for, with the strings cut
wildcard-Covers :
    (hostname pattern prefix behind label rest host_label host_rest : Bytes)
    → strchr pattern b'*' ≡ some (prefix, behind)
    → strchr pattern b'.' ≡ some (label, rest)
    → strchr hostname b'.' ≡ some (host_label, host_rest)
    → strchr rest b'.' ≢ none
    → length prefix ≤ length label
    → wildcard_match hostname pattern (prefix, behind) (label, rest) (host_label, host_rest) ≡ true
    → Covers pattern hostname
unfolding wildcard_match
wildcard-Covers hostname pattern prefix behind label rest host_label host_rest a b c m l h =
    let (pa, na) = strchr-some pattern b'*' prefix behind a in
    let (pb, nb) = strchr-some pattern b'.' label rest b in
    let (pc, nc) = strchr-some hostname b'.' host_label host_rest c in
    let (suffix, u, v) = in_label prefix behind label rest (sym pa ∙ pb) l in
    let n : length label ≡ length prefix + suc (length suffix) =
      ap length u ∙ length-append prefix (b'*' ∷ suffix) in
    let s : length label - suc (length prefix) ≡ length suffix = omega (arith, n) in
    let k = length prefix in
    let d = length host_label - (length label - suc (length prefix)) in
    let e1 : raw_equal rest host_rest ≡ true = ground arith in
    let e2 : length label ≤ length host_label = ground arith in
    let e3 : raw_nequal pattern hostname k ≡ true = ground arith in
    let e4 : raw_nequal behind (from d hostname) (length label - suc (length prefix)) ≡ true =
      ground arith in
    let m' = d - k in
    let e5 : d ≡ k + m' = omega (arith, n, s) in
    let q : length label - suc k ≡ length (from d host_label) =
      omega (arith, n, s, length-from d host_label (omega arith)) in
    record {
      prefix = prefix;
      suffix = suffix;
      rest = rest;
      host_prefix = take k host_label;
      middle = take m' (from k host_label);
      host_suffix = from (k + m') host_label;
      host_rest = host_rest;
      is_pattern = pb ∙ ap (λ z. z ++ b'.' ∷ rest) u;
      more_labels = m;
      is_name = pc ∙ ap (λ z. z ++ b'.' ∷ host_rest) (sym (cut k m' host_label));
      one_label = ap (λ z. strchr z b'.') (cut k m' host_label) ∙ nc;
      not_empty =
          let f =
            length-take m' (from k host_label)
              (omega (arith, n, s, length-from k host_label (omega (arith, n)))) in
          omega (arith, n, s, f);
      same_prefix = sym (
          ap upper (sym (ap (take k) pa ∙ take-append prefix (b'*' ∷ behind)))
          ∙ (raw_nequal_iff k pattern hostname).0 e3
          ∙ ap upper
              (ap (take k) pc ∙ take-append_le k host_label (b'.' ∷ host_rest) (omega (arith, n))));
      same_suffix =
          ap upper (
            ap (λ j. from j host_label) (sym e5)
            ∙ sym (
                ap (take (length label - suc k))
                  (ap (from d) pc ∙ from-append d host_label (b'.' ∷ host_rest) (omega arith))
                ∙ ap (λ j. take j (from d host_label ++ b'.' ∷ host_rest)) q
                ∙ take-append (from d host_label) (b'.' ∷ host_rest)))
          ∙ sym ((raw_nequal_iff (length label - suc k) behind (from d hostname)).0 e4)
          ∙ ap upper (
              ap (λ j. take j behind) s
              ∙ ap (take (length suffix)) v
              ∙ take-append suffix (b'.' ∷ rest));
      same_rest = sym ((raw_equal_iff rest host_rest).0 e1);
    }

label-Covers :
    (hostname pattern prefix behind : Bytes) (dot : Option (Bytes × Bytes))
    → strchr pattern b'*' ≡ some (prefix, behind)
    → strchr pattern b'.' ≡ dot
    → label_match hostname pattern (prefix, behind) dot ≡ true
    → (upper pattern ≡ upper hostname)
      ⊎ (Covers pattern hostname × (raw_nequal pattern (codes "xn--") 4 ≡ false))
unfolding label_match
label-Covers hostname pattern prefix behind none z y h = inl ((raw_equal_iff pattern hostname).0 h)
label-Covers hostname pattern prefix behind (some (label, rest)) z y h =
    elim (Option-cases (strchr rest b'.')) [
      | inl r ↦ inl ((raw_equal_iff pattern hostname).0 (ground arith))
      | inr (w, r) ↦ elim (Bool-cases (ltb (length label) (length prefix))) [
        | inl l ↦ inl ((raw_equal_iff pattern hostname).0 (ground arith))
        | inr l ↦ elim (Bool-cases (raw_nequal pattern (codes "xn--") 4)) [
          | inl x ↦ inl ((raw_equal_iff pattern hostname).0 (ground arith))
          | inr x ↦ elim (Option-cases (strchr hostname b'.')) [
            | inl c ↦ absurd (ground arith)
            | inr ((host_label, host_rest), c) ↦ inr (
              wildcard-Covers hostname pattern prefix behind label rest host_label host_rest z y c
                  (λ e. ground arith) (ground arith) (ground arith),
              x,
            )
          ]
        ]
      ]
    ]

module _ (n : Names) where
  -- A name is accepted for a pattern only where the two are the same but for the case of the letters, or
  -- the pattern covers the name with a wildcard, is not the name of an internationalized domain, and the
  -- name is no address.
  pub hostmatch-Covers :
      (hostname pattern : Bytes)
      → hostmatch n hostname pattern ≡ true
      → (upper pattern ≡ upper hostname)
        ⊎ (Covers pattern hostname
            × (n.inet_pton hostname ≡ none)
            × (n.inet_pton6 hostname ≡ none)
            × (raw_nequal pattern (codes "xn--") 4 ≡ false))
  unfolding hostmatch label_match
  hostmatch-Covers hostname pattern h = elim (Option-cases (strchr pattern b'*')) [
    | inl z ↦ inl ((raw_equal_iff pattern hostname).0 (ground arith))
    | inr ((prefix, behind), z) ↦ elim (Option-cases (n.inet_pton hostname)) [
      | inr (x, i) ↦ absurd (ground arith)
      | inl i ↦ elim (Option-cases (n.inet_pton6 hostname)) [
        | inr (x, j) ↦ absurd (ground arith)
        | inl j ↦
            elim (label-Covers hostname pattern prefix behind (strchr pattern b'.') z refl
              (ground arith)) [ inl e ↦ inl e | inr (c, x) ↦ inr (c, i, j, x) ]
      ]
    ]
  ]
