-- ===== src/Client/Host.antt =====
-- src/est/est_client.c: est_client_hostmatch, est_client_cert_hostcheck and est_client_verifyhost, which
-- compare the name of the server with its certificate. OpenSSL and inet_pton are parameters. A
-- comparison that reads behind the address of the host is left out, since its result is not looked at;
-- so are failures of malloc.
pub mod Wildcard
pub mod Identity
use aims_libest.Prelude.{
  ℕ, zero, suc, ◌+◌, ◌-◌, Bytes, List, [], ◌∷◌, ◌++◌, Option, none, some, Bool, true, false, not,
  ◌&&◌, ◌||◌, if◌then◌else◌, ltb, leb, ◌==◌, length, is_some, codes, is_zero,
}
use aims_libest.Api.{Status, fqdn_mismatch}
use aims_libest.Ossl.{X509}
use aims_libest.Safec.{strnlen_s, memcmp_s}

unfoldable pub raw_toupper : ℕ → ℕ
raw_toupper c = if leb b'a' c && leb c b'z' then c - 32 else c

unfoldable pub raw_equal : Bytes → Bytes → Bool
raw_equal [] [] = true
raw_equal [] (y ∷ second) = false
raw_equal (x ∷ first) [] = false
raw_equal (x ∷ first) (y ∷ second) = raw_toupper x == raw_toupper y && raw_equal first second

-- The name is the source's: the strings are equal as far as `max`.
unfoldable pub raw_nequal : Bytes → Bytes → ℕ → Bool
raw_nequal first second zero = true
raw_nequal [] [] (suc max) = true
raw_nequal [] (y ∷ second) (suc max) = false
raw_nequal (x ∷ first) [] (suc max) = false
raw_nequal (x ∷ first) (y ∷ second) (suc max) =
    raw_toupper x == raw_toupper y && raw_nequal first second max

abbrev cons_before : ℕ → Option (Bytes × Bytes) → Option (Bytes × Bytes)
cons_before x none = none
cons_before x (some (before, after)) = some (x ∷ before, after)

-- strchr: what stands before the first such byte, and behind it
unfoldable pub strchr : Bytes → ℕ → Option (Bytes × Bytes)
strchr [] c = none
strchr (x ∷ s) c = let rest = strchr s c in if x == c then some ([], s) else cons_before x rest

-- the string from the nth byte on
abbrev pub from : ℕ → Bytes → Bytes
from zero s = s
from (suc n) [] = []
from (suc n) (x ∷ s) = from n s

-- the comparison of the labels behind the first dot, and of what stands around the wildcard
unfoldable pub wildcard_match : Bytes → Bytes → Bytes × Bytes → Bytes × Bytes → Bytes × Bytes → Bool
wildcard_match hostname pattern (prefix, behind) (label, rest) (host_label, host_rest) =
    let suffixlen = length label - suc (length prefix) in
    raw_equal rest host_rest
    && leb (length label) (length host_label)
    && raw_nequal pattern hostname (length prefix)
    && raw_nequal behind (from (length host_label - suffixlen) hostname) suffixlen

-- a pattern with a wildcard, the host's name being no address
unfoldable pub label_match : Bytes → Bytes → Bytes × Bytes → Option (Bytes × Bytes) → Bool
unfolding wildcard_match
label_match hostname pattern wildcard none = raw_equal pattern hostname
label_match hostname pattern (prefix, behind) (some (label, rest)) =
    if not (is_some (strchr rest b'.'))
      || ltb (length label) (length prefix)
      || raw_nequal pattern (codes "xn--") 4
    then raw_equal pattern hostname
    else elim (strchr hostname b'.') [
      | none ↦ false
      | some host ↦ wildcard_match hostname pattern (prefix, behind) (label, rest) host
    ]

-- what the functions ask of the system and of OpenSSL
pub data GeneralName : Type 0 where
  -- GEN_DNS and GEN_IPADD with the bytes of the string, and any other type
  gen_dns gen_ipadd : Bytes → GeneralName
  gen_other : GeneralName

pub record Names : Type 0 where
  -- inet_pton for AF_INET and AF_INET6
  pub inet_pton : Bytes → Option Bytes
  pub inet_pton6 : Bytes → Option Bytes
  -- X509_get_ext_d2i(cert, NID_subject_alt_name, ...)
  pub subject_alt_name : X509 → Option (List GeneralName)
  -- the last common name of the subject in UTF-8; the inner `none` is a failure to convert it
  pub common_name : X509 → Option (Option Bytes)

-- the bytes before the first NUL
abbrev pub c_string : Bytes → Bytes
c_string [] = []
c_string (zero ∷ s) = []
c_string (suc c ∷ s) = suc c ∷ c_string s

unfoldable pub max_servername_len : ℕ
max_servername_len = 255

module _ (n : Names) where
  unfoldable pub hostmatch : Bytes → Bytes → Bool
  unfolding label_match
  hostmatch hostname pattern = elim (strchr pattern b'*') [
    | none ↦ raw_equal pattern hostname
    | some wildcard ↦
        if is_some (n.inet_pton hostname) || is_some (n.inet_pton6 hostname)
        then false
        else label_match hostname pattern wildcard (strchr pattern b'.')
  ]

  unfoldable pub cert_hostcheck : Bytes → Bytes → Bool
  unfolding hostmatch
  cert_hostcheck [] hostname = false
  cert_hostcheck (c ∷ pattern) [] = false
  cert_hostcheck (c ∷ pattern) (d ∷ hostname) =
      raw_equal (d ∷ hostname) (c ∷ pattern) || hostmatch (d ∷ hostname) (c ∷ pattern)

  -- A name with a NUL inside, or of more than 255 bytes, is not looked at.
  unfoldable pub check_name : Bytes → Bytes → Bool
  unfolding max_servername_len
  check_name name hostname =
      length name == strnlen_s (c_string name) max_servername_len
      && cert_hostcheck (c_string name) hostname

  -- the address that the host's name stands for, if it is one
  abbrev pub address : Bytes → Option Bytes
  address hostname = elim (n.inet_pton hostname) [
    | some addr ↦ some addr
    | none ↦ n.inet_pton6 hostname
  ]

  abbrev pub check_address : Bytes → Option Bytes → Bool
  check_address name none = false
  check_address name (some addr) =
      length name == length addr && elim (memcmp_s name (length name) addr (length name)) [
        | none ↦ false
        | some diff ↦ is_zero diff
      ]

  -- `matched` after the loop over the alternative names; `none` is -1
  unfoldable pub alt_names : Bytes → Option Bool → List GeneralName → Option Bool
  alt_names hostname (some true) names = some true
  alt_names hostname matched [] = matched
  alt_names hostname matched (gen_dns name ∷ names) =
      alt_names hostname (some (check_name name hostname)) names
  alt_names hostname matched (gen_ipadd name ∷ names) =
      alt_names hostname (some (check_address name (address hostname))) names
  alt_names hostname matched (gen_other ∷ names) = alt_names hostname matched names

  -- the common name, where there was no alternative name to look at
  abbrev pub check_cn : Bytes → Option (Option Bytes) → Status
  check_cn hostname none = some fqdn_mismatch
  check_cn hostname (some none) = some fqdn_mismatch
  check_cn hostname (some (some cn)) = if check_name cn hostname then none else some fqdn_mismatch

  abbrev pub verdict : Bytes → Option (Option Bytes) → Option Bool → Status
  verdict hostname cn (some true) = none
  verdict hostname cn (some false) = some fqdn_mismatch
  verdict hostname cn none = check_cn hostname cn

  abbrev pub matched_of : Bytes → Option (List GeneralName) → Option Bool
  matched_of hostname none = none
  matched_of hostname (some names) = alt_names hostname none names

  unfoldable pub verifyhost : Bytes → X509 → Status
  unfolding alt_names
  verifyhost hostname cert =
      verdict hostname (n.common_name cert) (matched_of hostname (n.subject_alt_name cert))
