-- ===== src/Net/Address.antt =====
-- kernel/net/network.c: the command `ping`, and the address that it reads.
pub mod Dotted
mod Tests
use nedoos.Prelude.{
  ℕ, zero, suc, ◌+◌, ◌-◌, ◌*◌, ◌^◌, ◌%◌, Bool, true, false, ◌&&◌, bit_or, List, [], ◌∷◌, Option,
  none, some, ◌>>=◌, ltb, leb, ◌==◌, if◌then◌else◌, u16, u32,
}
use nedoos.Net.Stack.{Net, arp_request}

-- ip |= (octet << shift). A negative shift is `none`, and a fault.
pub put_octet : ℕ → ℕ → Option ℕ → Option ℕ
put_octet ip octet none = none
put_octet ip octet (some shift) = some (bit_or ip (u32 (octet * 2 ^ shift)))

-- shift -= 8
abbrev pub lower : Option ℕ → Option ℕ
lower none = none
lower (some shift) = if ltb shift 8 then none else some (shift - 8)

-- The loop over the characters and the line after it.
pub read_ip : List ℕ → ℕ → ℕ → Option ℕ → Option ℕ
unfolding put_octet
read_ip [] ip octet shift = put_octet ip octet shift
read_ip (c ∷ cs) ip octet shift =
    let digit = read_ip cs ip (u32 (octet * 10 + (c - 48))) shift in
    let dot = put_octet ip octet shift >>= λ ip'. read_ip cs ip' 0 (lower shift) in
    let other = read_ip cs ip octet shift in
    if leb 48 c && leb c 57 then digit else if c == 46 then dot else other

-- What follows: the request is noted, and the address asked for.
pub ping_to : ℕ → Net → Option Net
ping_to ip n = arp_request ip (record n {
  ping_request = record {
    ip = ip;
    id = u16 (n.ping_request.id + 1);
    seq = 1;
    tries = 0;
    waiting = true;
  };
})

pub ping : List ℕ → Net → Option Net
unfolding read_ip ping_to
ping ip_str n = read_ip ip_str 0 0 (some 24) >>= λ ip. ping_to ip n
