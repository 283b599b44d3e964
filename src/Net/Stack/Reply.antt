-- ===== src/Net/Stack/Reply.antt =====
-- The answer to an echo request.
use nedoos.Prelude.{
  ℕ, ◌+◌, ◌/◌, ◌%◌, ◌≡◌, drop, List, ◌∷◌, ◌++◌, length, Option, some, Array, get_elem?,
}
use nedoos.Net.Bytes.{htons, store16, checksum}
use nedoos.Net.Stack.{Net, my_mac, bytes_at}

-- The body of a reply: four bytes of header, and what the request holds from there on.
abbrev sealed_body : Array → ℕ → ℕ → List ℕ
sealed_body icmp c k = 0 ∷ 0 ∷ c % 256 ∷ c / 256 % 256 ∷ bytes_at icmp 4 k

-- The frame that answers an echo request: to the sender's place in the ARP table, with the echoed
-- bytes, and with both checksums right.
pub record Replies (icmp : Array) (src_ip k i : ℕ) (n : Net) (r : Option Net) : Type 0 where
  pub header : List ℕ
  pub body : List ℕ
  pub returns :
      r
      ≡ some (record n {
        sent =
            ((n.arp_table i).mac ++ (my_mac ++ (store16 (htons 0x0800) ++ (header ++ body))))
            ∷ n.sent;
      })
  pub length_header : length header ≡ 20
  pub length_body : length body ≡ 4 + k
  pub is_reply : get_elem? body 0 ≡ some 0
  pub echoes : drop 4 body ≡ bytes_at icmp 4 k
  pub header_right : checksum header ≡ some 0
  pub body_right : checksum body ≡ some 0
