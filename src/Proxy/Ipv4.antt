-- ===== src/Proxy/Ipv4.antt =====
-- The IPv4 addresses that `isValidAddress` accepts.
use testserver.Prelude.{
  ℕ, ◌≤◌, ◌<◌, ◌≡◌, refl, subst, ◌↔◌, true, Option, none, some, List, [], ◌∷◌, ◌++◌, length, all,
  All, arith,
}
use testserver.Text.{Text, split, join}
use testserver.Text.Laws.{text_eq_iff}
use testserver.Text.Number.{ℤ, pos, negsuc, parse_int, to_decimal}
use testserver.Text.Decimal.{IsDigit, to_decimal-All, parse_int-to_decimal}
use testserver.Text.Splits.{Lacks, split-Lacks, split-cons, join-split}
use testserver.Proxy.V1.{is_octet, is_ipv4}

-- Four octets in dotted decimal notation.
abbrev pub dotted : ℕ → ℕ → ℕ → ℕ → Text
dotted a b c d =
    to_decimal a ++ b'.' ∷ (to_decimal b ++ b'.' ∷ (to_decimal c ++ b'.' ∷ to_decimal d))

-- The address is `dotted` of four octets.
pub record IsDotted (addr : Text) : Type 0 where
  pub a : ℕ
  pub b : ℕ
  pub c : ℕ
  pub d : ℕ
  pub a_octet : a ≤ 255
  pub b_octet : b ≤ 255
  pub c_octet : c ≤ 255
  pub d_octet : d ≤ 255
  pub reads : addr ≡ dotted a b c d

Lacks-digits : (sep : ℕ) (s : Text) → sep < b'0' → All IsDigit s → Lacks sep s
Lacks-digits sep [] l h = tt
Lacks-digits sep (c ∷ s) l h = (ground arith, Lacks-digits sep s l h.1)

pub decimal-Lacks : (sep n : ℕ) → sep < b'0' → Lacks sep (to_decimal n)
decimal-Lacks sep n l = Lacks-digits sep (to_decimal n) l (to_decimal-All n)

is_octet-decimal : (n : ℕ) → n ≤ 255 → is_octet (to_decimal n) ≡ true
is_octet-decimal n h =
    rw (parse_int-to_decimal n, is_octet)
      (ground (arith, text_eq_iff (to_decimal n) (to_decimal n)))

octet_of :
    (part : Text) (o : Option ℤ)
    → parse_int part ≡ o
    → is_octet part ≡ true
    → (n : ℕ) × (n ≤ 255) × (part ≡ to_decimal n)
octet_of part none e h = absurd (let p = rw (e, is_octet) at h in cc)
octet_of part (some (negsuc n)) e h = absurd (let p = rw (e, is_octet) at h in cc)
octet_of part (some (pos n)) e h =
    let p = rw (e, is_octet) at h in
    (n, ground arith, (text_eq_iff part (to_decimal n)).0 (ground arith))

split-dotted :
    (a b c d : ℕ)
    → split b'.' (dotted a b c d) ≡ to_decimal a ∷ to_decimal b ∷ to_decimal c ∷ to_decimal d ∷ []
split-dotted a b c d =
    let dot = λ (n : ℕ). decimal-Lacks b'.' n (omega arith) in
    rw (split-cons b'.' (to_decimal a) _ (dot a)) (
      rw (split-cons b'.' (to_decimal b) _ (dot b)) (
        rw (split-cons b'.' (to_decimal c) _ (dot c))
          (rw (split-Lacks b'.' (to_decimal d) (dot d)) refl)))

IsDotted-is_ipv4 : (addr : Text) → IsDotted addr → is_ipv4 addr ≡ true
unfolding is_ipv4
IsDotted-is_ipv4 addr x =
    rw (x.reads, is_ipv4, split-dotted x.a x.b x.c x.d)
      (ground (
        arith,
        is_octet-decimal x.a x.a_octet,
        is_octet-decimal x.b x.b_octet,
        is_octet-decimal x.c x.c_octet,
        is_octet-decimal x.d x.d_octet,
      ))

-- Four parts that are octets.
IsDotted-of :
    (ps : List Text) → length ps ≡ 4 → all is_octet ps ≡ true → IsDotted (join (b'.' ∷ []) ps)
IsDotted-of (p ∷ (q ∷ (r ∷ (t ∷ [])))) l h =
    let (a, al, ae) = octet_of p _ refl (ground arith) in
    let (b, bl, be) = octet_of q _ refl (ground arith) in
    let (c, cl, ce) = octet_of r _ refl (ground arith) in
    let (d, dl, de) = octet_of t _ refl (ground arith) in
    record {
      a = a;
      b = b;
      c = c;
      d = d;
      a_octet = al;
      b_octet = bl;
      c_octet = cl;
      d_octet = dl;
      reads = rw (ae, be, ce, de) refl;
    }
IsDotted-of ps l h = absurd (ground arith)

is_ipv4-IsDotted : (addr : Text) → is_ipv4 addr ≡ true → IsDotted addr
unfolding is_ipv4
is_ipv4-IsDotted addr h =
    subst IsDotted (join-split b'.' addr)
      (IsDotted-of (split b'.' addr) (ground arith) (ground arith))

-- The check of an IPv4 address accepts exactly the texts that are four numbers up to 255 in plain
-- decimal notation, joined by dots.
pub is_ipv4_iff : (addr : Text) → (is_ipv4 addr ≡ true) ↔ IsDotted addr
is_ipv4_iff addr = (is_ipv4-IsDotted addr, IsDotted-is_ipv4 addr)
