-- ===== src/Client/Host/Identity.antt =====
-- src/est/est_client.c: which certificates a server's name is accepted for.
use aims_libest.Prelude.{
  ℕ, zero, suc, ◌≤◌, Bytes, List, [], ◌∷◌, Option, none, some, Bool, true, false, length, take,
  get_elem?, codes, pos, ◌≡◌, ◌≢◌, ◌⊎◌, inl, inr, refl, sym, ap, ◌∙◌, arith, Bool-cases,
  Option-cases, min,
}
use aims_libest.Ossl.{X509}
use aims_libest.Safec.{strncmp, strncmp_iff, memcmp_s, strnlen_s}
use aims_libest.Client.Host.{
  GeneralName, gen_dns, gen_ipadd, gen_other, Names, c_string, max_servername_len, raw_equal,
  raw_nequal, cert_hostcheck, check_name, address, check_address, alt_names, check_cn, verifyhost,
}
use aims_libest.Client.Host.Wildcard.{upper, raw_equal_iff, Covers, hostmatch-Covers}

c_string-length : (s : Bytes) → length (c_string s) ≤ length s
c_string-length [] = omega arith
c_string-length (zero ∷ s) = omega arith
c_string-length (suc c ∷ s) = omega (arith, c_string-length s)

c_string_whole : (s : Bytes) → length s ≤ length (c_string s) → c_string s ≡ s
c_string_whole [] h = refl
c_string_whole (zero ∷ s) h = absurd (omega arith)
c_string_whole (suc c ∷ s) h = ap (λ r. suc c ∷ r) (c_string_whole s (omega arith))

take_all : (s : Bytes) (n : ℕ) → length s ≡ n → take n s ≡ s
take_all [] zero h = refl
take_all [] (suc n) h = refl
take_all (c ∷ s) zero h = absurd (omega arith)
take_all (c ∷ s) (suc n) h = ap (λ r. c ∷ r) (take_all s n (omega arith))

pub check_address_same :
    (n : Names) (name addr : Bytes) → check_address n name (some addr) ≡ true → name ≡ addr
unfolding memcmp_s
check_address_same n [] addr h = absurd (ground arith)
check_address_same n (c ∷ name) addr h =
    let k = length (c ∷ name) in
    let l : k ≡ length addr = ground arith in
    let e : strncmp (take k (c ∷ name)) (take k addr) k ≡ pos 0 = ground arith in
    sym (take_all (c ∷ name) k refl)
    ∙ sym (take_all (take k (c ∷ name)) k (ap length (take_all (c ∷ name) k refl)))
    ∙ (strncmp_iff k (take k (c ∷ name)) (take k addr)).0 e
    ∙ take_all (take k addr) k (ap length (take_all addr k (sym l)) ∙ sym l)
    ∙ take_all addr k (sym l)

module _ (n : Names) where
  -- The name of a certificate names the host: it has no NUL inside and 255 bytes at most, and is the
  -- host's name but for the case of the letters, or covers it with a wildcard.
  pub record Identifies (hostname name : Bytes) : Type 0 where
    pub no_nul : c_string name ≡ name
    pub is_short : length name ≤ 255
    pub not_empty : name ≢ []
    pub named :
        (upper name ≡ upper hostname)
        ⊎ (Covers name hostname
            × (n.inet_pton hostname ≡ none)
            × (n.inet_pton6 hostname ≡ none)
            × (raw_nequal name (codes "xn--") 4 ≡ false))

  -- An alternative name of the certificate names the host, or is its address.
  pub data Alternative (hostname : Bytes) : GeneralName → Type 0 where
    by_name : {name : Bytes} → Identifies hostname name → Alternative hostname (gen_dns name)
    by_address :
        {addr : Bytes} → address n hostname ≡ some addr → Alternative hostname (gen_ipadd addr)

  -- no alternative name that the client looks at
  abbrev pub AllOther : List GeneralName → Type 0
  AllOther names = (i : ℕ) (x : GeneralName) → get_elem? names i ≡ some x → x ≡ gen_other

  hostcheck_named :
      (name hostname : Bytes)
      → cert_hostcheck n name hostname ≡ true
      → (name ≢ [])
        × ((upper name ≡ upper hostname)
            ⊎ (Covers name hostname
                × (n.inet_pton hostname ≡ none)
                × (n.inet_pton6 hostname ≡ none)
                × (raw_nequal name (codes "xn--") 4 ≡ false)))
  unfolding cert_hostcheck
  hostcheck_named [] hostname h = absurd (ground arith)
  hostcheck_named (c ∷ name) [] h = absurd (ground arith)
  hostcheck_named (c ∷ name) (d ∷ hostname) h = (
    (λ e. cc),
    elim (Bool-cases (raw_equal (d ∷ hostname) (c ∷ name))) [
      | inl e ↦ inl (sym ((raw_equal_iff (d ∷ hostname) (c ∷ name)).0 e))
      | inr e ↦ hostmatch-Covers n (d ∷ hostname) (c ∷ name) (ground arith)
    ],
  )

  check_name-Identifies :
      (name hostname : Bytes) → check_name n name hostname ≡ true → Identifies hostname name
  unfolding check_name strnlen_s max_servername_len
  check_name-Identifies name hostname h =
      let l : length name ≡ min (length (c_string name)) 255 = ground arith in
      let w = c_string_whole name (omega arith) in
      let g : cert_hostcheck n (c_string name) hostname ≡ true = ground arith in
      let (x, y) =
        hostcheck_named name hostname (ap (λ s. cert_hostcheck n s hostname) (sym w) ∙ g) in
      record { no_nul = w; is_short = omega arith; not_empty = x; named = y }

  address-Alternative :
      (hostname name : Bytes)
      → check_address n name (address n hostname) ≡ true
      → Alternative hostname (gen_ipadd name)
  address-Alternative hostname name h = elim (Option-cases (address n hostname)) [
    | inl z ↦ absurd (ground arith)
    | inr (addr, z) ↦
        let e = check_address_same n name addr (ap (check_address n name) (sym z) ∙ h) in
        by_address (z ∙ ap some (sym e))
  ]

  abbrev Found : Bytes → List GeneralName → Type 0
  Found hostname names =
      (i : ℕ) × (x : GeneralName) × (get_elem? names i ≡ some x) × Alternative hostname x

  next :
      (hostname : Bytes) (x : GeneralName) (names : List GeneralName)
      → Found hostname names
      → Found hostname (x ∷ names)
  next hostname x names (i, y, e, a) = (suc i, y, e, a)

  -- The loop behind a name that has been looked at ends with a match only at a name that matches.
  Found-later :
      (hostname : Bytes) (b : Bool) (x : GeneralName) (names : List GeneralName)
      → (b ≡ true → Alternative hostname x)
      → alt_names n hostname (some b) names ≡ some true
      → Found hostname (x ∷ names)
  unfolding alt_names
  Found-later hostname true x names f h = (0, x, refl, f refl)
  Found-later hostname false x [] f h = absurd (ground arith)
  Found-later hostname false x (gen_dns name ∷ names) f h = next hostname x (gen_dns name ∷ names) (
      Found-later hostname (check_name n name hostname) (gen_dns name) names
        (λ e. by_name (check_name-Identifies name hostname e)) h)
  Found-later hostname false x (gen_ipadd name ∷ names) f h =
      next hostname x (gen_ipadd name ∷ names) (
        Found-later hostname (check_address n name (address n hostname)) (gen_ipadd name) names
          (address-Alternative hostname name) h)
  Found-later hostname false x (gen_other ∷ names) f h =
      next hostname x (gen_other ∷ names)
        (Found-later hostname false gen_other names (λ e. absurd (ground arith)) h)

  alt_names-true :
      (hostname : Bytes) (names : List GeneralName)
      → alt_names n hostname none names ≡ some true
      → Found hostname names
  unfolding alt_names
  alt_names-true hostname [] h = absurd (ground arith)
  alt_names-true hostname (gen_dns name ∷ names) h =
      Found-later hostname (check_name n name hostname) (gen_dns name) names
        (λ e. by_name (check_name-Identifies name hostname e)) h
  alt_names-true hostname (gen_ipadd name ∷ names) h =
      Found-later hostname (check_address n name (address n hostname)) (gen_ipadd name) names
        (address-Alternative hostname name) h
  alt_names-true hostname (gen_other ∷ names) h =
      next hostname gen_other names (alt_names-true hostname names h)

  some_stays :
      (hostname : Bytes) (b : Bool) (names : List GeneralName)
      → alt_names n hostname (some b) names ≢ none
  unfolding alt_names
  some_stays hostname true names h = absurd (ground arith)
  some_stays hostname false [] h = absurd (ground arith)
  some_stays hostname false (gen_dns name ∷ names) h =
      some_stays hostname (check_name n name hostname) names h
  some_stays hostname false (gen_ipadd name ∷ names) h =
      some_stays hostname (check_address n name (address n hostname)) names h
  some_stays hostname false (gen_other ∷ names) h = some_stays hostname false names h

  -- The loop looks at no name only where there is none to look at.
  alt_names-none :
      (hostname : Bytes) (names : List GeneralName)
      → alt_names n hostname none names ≡ none
      → AllOther names
  unfolding alt_names
  alt_names-none hostname [] h i x e = absurd (ground arith)
  alt_names-none hostname (gen_dns name ∷ names) h i x e =
      absurd (some_stays hostname (check_name n name hostname) names h)
  alt_names-none hostname (gen_ipadd name ∷ names) h i x e =
      absurd (some_stays hostname (check_address n name (address n hostname)) names h)
  alt_names-none hostname (gen_other ∷ names) h zero x e = ground arith
  alt_names-none hostname (gen_other ∷ names) h (suc i) x e = alt_names-none hostname names h i x e

  cn_named :
      (hostname : Bytes) (cn : Option (Option Bytes))
      → check_cn n hostname cn ≡ none
      → (name : Bytes) × (cn ≡ some (some name)) × Identifies hostname name
  cn_named hostname none h = absurd (ground arith)
  cn_named hostname (some none) h = absurd (ground arith)
  cn_named hostname (some (some name)) h =
      (name, refl, check_name-Identifies name hostname (ground arith))

  others :
      (hostname : Bytes) (found : Option (List GeneralName)) (names : List GeneralName)
      → found ≡ some names
      → alt_names n hostname none names ≡ none
      → (names' : List GeneralName) → found ≡ some names'
      → AllOther names'
  others hostname found names y z names' e =
      alt_names-none hostname names' (ap (alt_names n hostname none) (ground arith) ∙ z)

  -- The client accepts a certificate for its server only where an alternative name of the certificate
  -- names the server or is its address, or where the certificate has no alternative name of either kind
  -- and its last common name names the server.
  pub verifyhost-Identifies :
      (hostname : Bytes) (cert : X509)
      → verifyhost n hostname cert ≡ none
      → ((names : List GeneralName) × (i : ℕ) × (x : GeneralName) × (n.subject_alt_name cert
            ≡ some names)
          × (get_elem? names i ≡ some x)
          × Alternative hostname x)
        ⊎ (((names : List GeneralName) → n.subject_alt_name cert ≡ some names → AllOther names)
            × ((cn : Bytes) × (n.common_name cert ≡ some (some cn)) × Identifies hostname cn))
  unfolding verifyhost
  verifyhost-Identifies hostname cert h = elim (Option-cases (n.subject_alt_name cert)) [
    | inl y ↦
        inr (
          (λ names e. absurd (ground arith)),
          cn_named hostname (n.common_name cert) (ground arith),
        )
    | inr (names, y) ↦ elim (Option-cases (alt_names n hostname none names)) [
      | inl z ↦ inr (
        others hostname (n.subject_alt_name cert) names y z,
        cn_named hostname (n.common_name cert) (ground arith),
      )
      | inr (false, z) ↦ absurd (ground arith)
      | inr (true, z) ↦
          let (i, x, e, a) = alt_names-true hostname names z in inl (names, i, x, y, e, a)
    ]
  ]
