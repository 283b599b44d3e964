-- ===== src/Net/Stack/Echo.antt =====
-- An echo request whose header claims a wrong length.
use nedoos.Prelude.{
  ℕ, zero, suc, ◌+◌, ◌-◌, ◌<◌, ◌≡◌, ◌⊎◌, inl, inr, refl, ap, true, false, List, length, Option,
  none, some, ◌>>=◌, Array, leb, ◌==◌, arith, eq→==, u16,
}
use nedoos.Net.Bytes.{ntohs, ntohl, checksum}
use nedoos.Net.Stack.{
  Net, my_ip, bytes_at, load16, load32, from_offset, ipv4_send, reply_header, with_checksum,
  icmp_send_reply, icmp_handler, ipv4_handler,
}

pub length-bytes_at : (len off : ℕ) (m : Array) → length (bytes_at m off len) ≡ len
unfolding bytes_at
length-bytes_at zero off m = refl
length-bytes_at (suc len) off m = ap suc (length-bytes_at len (off + 1) m)

too_long :
    (dest_ip protocol : ℕ) (payload : List ℕ) (n : Net)
    → 1494 < length payload
    → ipv4_send dest_ip protocol payload n ≡ none
unfolding ipv4_send
too_long dest_ip protocol payload n h =
    let over : leb (20 + length payload) 1514 ≡ false = ground (arith, h) in rw over refl

bind-none : (o : Option ℕ) (f : ℕ → Option Net) → ((s : ℕ) → f s ≡ none) → (o >>= f) ≡ none
bind-none none f h = refl
bind-none (some s) f h = h s

reply-overflow :
    (icmp : Array) (src_ip len : ℕ) (n : Net)
    → 1494 < len
    → icmp_send_reply icmp src_ip len n ≡ none
unfolding icmp_send_reply
reply-overflow icmp src_ip len n h =
    bind-none (checksum (bytes_at (reply_header icmp) 0 len)) _ (λ sum.
      too_long src_ip 1 _ n
        (omega (arith, h, length-bytes_at len 0 (with_checksum (reply_header icmp) sum))))

handler-overflow :
    (icmp : Array) (src_ip len : ℕ) (n : Net)
    → icmp 0 ≡ 8
    → 1494 < len
    → icmp_handler icmp src_ip len n ≡ none
unfolding icmp_handler
handler-overflow icmp src_ip len n e h =
    rw (eq→== (icmp 0) 8 e) (reply-overflow icmp src_ip len n h)

-- The length in the header of a received packet is not checked against the packet. An echo request
-- for this machine that claims less than 20 or more than 1514 bytes makes `ipv4_send` write past its
-- buffer.
pub ipv4_handler_overflow :
    (packet : Array) (n : Net) (total_len : ℕ)
    → ntohl (load32 packet 16) ≡ my_ip
    → packet 9 ≡ 1
    → packet 20 ≡ 8
    → ntohs (load16 packet 2) ≡ total_len
    → total_len < 65536
    → (total_len < 20) ⊎ (1514 < total_len)
    → ipv4_handler packet n ≡ none
unfolding ipv4_handler
ipv4_handler_overflow packet n total_len dest protocol request e small bad =
    let ours : (ntohl (load32 packet 16) == my_ip) ≡ true = eq→== _ my_ip dest in
    let len : 1494 < u16 (ntohs (load16 packet 2) + 65536 - 20) = long bad in
    rw (ours, eq→== (packet 9) 1 protocol)
      (handler-overflow (from_offset packet 20) (ntohl (load32 packet 12)) _ n request len)
  where
    long : (total_len < 20) ⊎ (1514 < total_len) → 1494 < u16 (ntohs (load16 packet 2) + 65536 - 20)
    long (inl h) = omega (arith, e, h)
    long (inr h) = omega (arith, e, h, small)
