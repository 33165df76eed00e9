-- ===== src/Net.antt =====
-- What the engine uses of Go's net and net/netip: addresses, prefixes and host:port pairs. An
-- address holds its bits as a number; the bit lengths are 32 and 128.
use hypergate_engine.Prelude.{
  ℕ, ◌-◌, ◌/◌, ◌%◌, ◌^◌, ◌≡◌, ◌↔◌, refl, Bool, true, false, ◌&&◌, not, arith, if◌then◌else◌, Eq,
  ◌∷◌, ◌||◌, Option, none, some, ◌==◌, eq_iff, nat_eq, list_eq, [], leb,
}
use hypergate_engine.Prelude.Text.{Str, cut, cut_last, contains_byte}

pub data Addr : Type 0 where
  invalid : Addr
  v4 : ℕ → Addr
  v6 : ℕ → Str → Addr

abbrev pub is_valid : Addr → Bool
is_valid invalid = false
is_valid (v4 n) = true
is_valid (v6 n zone) = true

unfoldable pub addr_beq : Addr → Addr → Bool
addr_beq invalid invalid = true
addr_beq (v4 n) (v4 m) = n == m
addr_beq (v6 n z) (v6 m y) = n == m && z == y
addr_beq _ _ = false

pub addr_beq_iff : (a b : Addr) → (addr_beq a b ≡ true) ↔ (a ≡ b)
unfolding addr_beq
addr_beq_iff invalid invalid = ground arith
addr_beq_iff (v6 n z) (v6 m y) = ground (arith, eq_iff z y)
addr_beq_iff _ _ = ground arith

instance abbrev pub addr_eq : Eq Addr
addr_eq = record { same = addr_beq; same_iff = addr_beq_iff }

-- Is4In6: the upper 96 bits are those of ::ffff:0:0/96.
abbrev pub is_4in6 : Addr → Bool
is_4in6 (v6 n zone) = n / 2 ^ 32 == 0xffff
is_4in6 _ = false

unfoldable pub unmap : Addr → Addr
unmap invalid = invalid
unmap (v4 n) = v4 n
unmap (v6 n zone) = if n / 2 ^ 32 == 0xffff then v4 (n % 2 ^ 32) else v6 n zone

abbrev pub without_zone : Addr → Addr
without_zone (v6 n zone) = v6 n []
without_zone (v4 n) = v4 n
without_zone invalid = invalid

pub record Prefix : Type 0 where
  pub addr : Addr
  pub bits : ℕ

-- Contains: of the same family, with no zone, and the same leading bits.
abbrev contains_addr : Addr → ℕ → Addr → Bool
contains_addr (v4 n) bits (v4 m) = leb bits 32 && n / 2 ^ (32 - bits) == m / 2 ^ (32 - bits)
contains_addr (v6 n _) bits (v6 m zone) =
    zone == [] && leb bits 128 && n / 2 ^ (128 - bits) == m / 2 ^ (128 - bits)
contains_addr _ _ _ = false

unfoldable pub contains : Prefix → Addr → Bool
contains p a = contains_addr p.addr p.bits a

pub unmap-unmap : (a : Addr) → unmap (unmap a) ≡ unmap a
unfolding unmap
unmap-unmap invalid = refl
unmap-unmap (v4 n) = refl
unmap-unmap (v6 n z) = ground arith

-- The part of net.SplitHostPort behind a first `[`.
abbrev bracketed : Str → Option (Str × Str)
bracketed r =
    let (host, rest, found) = cut b']' r in
    let (none_before, port, colon) = cut b':' rest in
    if not found || not colon || not (none_before == []) || contains_byte b':' port
    then none
    else if contains_byte b'[' r || contains_byte b']' rest
    then none
    else some (host, port)

abbrev unbracketed : Str → Option (Str × Str)
unbracketed s =
    let (host, port, found) = cut_last b':' s in
    if not found || contains_byte b':' host || contains_byte b'[' s || contains_byte b']' s
    then none
    else some (host, port)

-- net.SplitHostPort; `none` is its error.
unfoldable pub split_host_port : Str → Option (Str × Str)
split_host_port [] = none
split_host_port (c ∷ r) = if c == b'[' then bracketed r else unbracketed (c ∷ r)
