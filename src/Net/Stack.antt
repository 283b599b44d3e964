-- ===== src/Net/Stack.antt =====
-- kernel/net/network.c: the handlers of the received packets and what they send. What is printed is
-- not part of the state. A packet that `e1000_send_packet` is called with is put in front of `sent`.
pub mod Arp
pub mod Echo
pub mod Reply
mod Tests
use nedoos.Prelude.{
  ℕ, zero, suc, ◌+◌, ◌-◌, ◌*◌, ◌/◌, ◌%◌, ◌^◌, ◌≤◌, Bool, true, false, ◌&&◌, ◌||◌, not, List, [],
  ◌∷◌, ◌++◌, length, Option, none, some, ◌>>=◌, Array, update, ltb, leb, ◌==◌, if◌then◌else◌, u16,
}
use nedoos.Task.Search.{first_from}
use nedoos.Net.Bytes.{ntohs, htons, ntohl, htonl, store16, store32, checksum}

-- `arp_entry_t`
pub record ArpEntry : Type 0 where
  pub ip : ℕ
  pub mac : List ℕ
  pub age : ℕ

pub record PingRequest : Type 0 where
  pub ip : ℕ
  pub id : ℕ
  pub seq : ℕ
  pub tries : ℕ
  pub waiting : Bool

pub record Net : Type 0 where
  pub arp_table : ℕ → ArpEntry
  pub arp_table_count : ℕ
  pub ping_request : PingRequest
  pub sent : List (List ℕ)

abbrev pub my_mac : List ℕ
my_mac = 0x52 ∷ 0x54 ∷ 0x00 ∷ 0x12 ∷ 0x34 ∷ 0x56 ∷ []

abbrev pub my_ip : ℕ
my_ip = 0x0a00020f

abbrev pub broadcast : List ℕ
broadcast = 0xff ∷ 0xff ∷ 0xff ∷ 0xff ∷ 0xff ∷ 0xff ∷ []

-- `len` bytes from `off` on
pub bytes_at : Array → ℕ → ℕ → List ℕ
bytes_at m off zero = []
bytes_at m off (suc len) = m off ∷ bytes_at m (off + 1) len

abbrev pub load16 : Array → ℕ → ℕ
load16 m off = m off + 256 * m (off + 1)

abbrev pub load32 : Array → ℕ → ℕ
load32 m off = load16 m off + 65536 * load16 m (off + 2)

-- Writing past the 1514 bytes of `buffer` is a fault.
pub ethernet_send : List ℕ → ℕ → List ℕ → Net → Option Net
ethernet_send dest_mac type payload n =
    if leb (14 + length payload) 1514
    then some
        (record n { sent = (dest_mac ++ (my_mac ++ (store16 (htons type) ++ payload))) ∷ n.sent })
    else none

pub arp_lookup : ℕ → Net → Option ℕ
arp_lookup ip n = first_from (λ i. (n.arp_table i).ip == ip) n.arp_table_count 0

-- An `arp_packet_t` for IPv4 over Ethernet.
abbrev pub arp_packet : ℕ → List ℕ → ℕ → List ℕ
arp_packet opcode target_mac target_ip =
    store16 (htons 1)
    ++ (store16 (htons 0x0800)
        ++ ((6 ∷ 4 ∷ [])
            ++ (store16 (htons opcode)
                ++ (my_mac
                    ++ (store32 (htonl my_ip) ++ (target_mac ++ store32 (htonl target_ip)))))))

pub arp_request : ℕ → Net → Option Net
unfolding ethernet_send
arp_request ip n = ethernet_send broadcast 0x0806 (arp_packet 1 (0 ∷ 0 ∷ 0 ∷ 0 ∷ 0 ∷ 0 ∷ []) ip) n

-- The header that `ipv4_send` builds, with its checksum.
abbrev pub ipv4_header : ℕ → ℕ → ℕ → ℕ → List ℕ
ipv4_header dest_ip protocol len sum =
    (0x45 ∷ 0 ∷ [])
    ++ (store16 (htons (u16 (20 + len)))
        ++ (store16 (htons 1)
            ++ ((0 ∷ 0 ∷ 64 ∷ protocol ∷ [])
                ++ (store16 sum ++ (store32 (htonl my_ip) ++ store32 (htonl dest_ip))))))

-- What follows the lookup of the destination.
pub ipv4_send_to : Option ℕ → ℕ → List ℕ → Net → Option Net
unfolding ethernet_send arp_request
ipv4_send_to none dest_ip packet n = arp_request dest_ip n
ipv4_send_to (some i) dest_ip packet n = ethernet_send (n.arp_table i).mac 0x0800 packet n

-- Writing past the 1514 bytes of `buffer` is a fault.
pub ipv4_send : ℕ → ℕ → List ℕ → Net → Option Net
unfolding arp_lookup ipv4_send_to
ipv4_send dest_ip protocol payload n =
    if leb (20 + length payload) 1514
    then (checksum (ipv4_header dest_ip protocol (length payload) 0) >>= λ sum.
        ipv4_send_to (arp_lookup dest_ip n) dest_ip
          (ipv4_header dest_ip protocol (length payload) sum ++ payload) n)
    else none

-- `icmp` is the memory from the ICMP header on: its first four bytes are set to zero.
abbrev pub reply_header : Array → Array
reply_header icmp = update (update (update (update icmp 0 0) 1 0) 2 0) 3 0

abbrev pub with_checksum : Array → ℕ → Array
with_checksum icmp sum = update (update icmp 2 (sum % 256)) 3 (sum / 256 % 256)

pub icmp_send_reply : Array → ℕ → ℕ → Net → Option Net
unfolding bytes_at ipv4_send
icmp_send_reply icmp src_ip len n = checksum (bytes_at (reply_header icmp) 0 len) >>= λ sum.
    ipv4_send src_ip 1 (bytes_at (with_checksum (reply_header icmp) sum) 0 len) n

abbrev pub ramp : Array
ramp i = i

-- An echo request: its header with the checksum, and the bytes 0 to 55.
abbrev pub echo_request : ℕ → ℕ → ℕ → List ℕ
echo_request id seq sum =
    (8 ∷ 0 ∷ [])
    ++ (store16 sum ++ (store16 (htons id) ++ (store16 (htons seq) ++ bytes_at ramp 0 56)))

pub icmp_send_request : ℕ → ℕ → ℕ → Net → Option Net
unfolding ipv4_send
icmp_send_request dest_ip id seq n =
    checksum (echo_request id seq 0) >>= λ sum. ipv4_send dest_ip 1 (echo_request id seq sum) n

abbrev pub learn : List ℕ → ℕ → Net → Net
learn mac ip n = record n {
  arp_table = update n.arp_table n.arp_table_count (record { ip = ip; mac = mac; age = 0 });
  arp_table_count = n.arp_table_count + 1;
}

pub arp_learn : List ℕ → ℕ → Net → Net
arp_learn mac ip n = if ltb n.arp_table_count 16 then learn mac ip n else n

pub arp_answer : ℕ → ℕ → List ℕ → ℕ → Net → Option Net
unfolding ethernet_send
arp_answer opcode target_ip sender_mac sender_ip n =
    if (opcode == 1) && (target_ip == my_ip)
    then ethernet_send sender_mac 0x0806 (arp_packet 2 sender_mac sender_ip) n
    else some n

pub arp_ping : ℕ → ℕ → Net → Option Net
unfolding icmp_send_request
arp_ping opcode sender_ip n =
    if (opcode == 2) && n.ping_request.waiting && (sender_ip == n.ping_request.ip)
    then icmp_send_request (htonl sender_ip) n.ping_request.id n.ping_request.seq n
    else some n

-- `arp` is the memory from the packet on.
pub arp_handler : Array → Net → Option Net
unfolding arp_learn arp_answer arp_ping
arp_handler arp n =
    let opcode = ntohs (load16 arp 6) in
    let sender_ip = ntohl (load32 arp 14) in
    let target_ip = ntohl (load32 arp 24) in
    let sender_mac = bytes_at arp 8 6 in
    (arp_answer opcode target_ip sender_mac sender_ip (arp_learn sender_mac sender_ip n)
      >>= arp_ping opcode sender_ip)

pub icmp_handler : Array → ℕ → ℕ → Net → Option Net
unfolding icmp_send_reply
icmp_handler icmp src_ip len n =
    if icmp 0 == 8
    then icmp_send_reply icmp src_ip len n
    else if (icmp 0 == 0) && n.ping_request.waiting && (src_ip == n.ping_request.ip)
    then some (record n { ping_request = record (n.ping_request) { waiting = false } })
    else some n

abbrev pub from_offset : Array → ℕ → Array
from_offset m off i = m (off + i)

-- `data_len` is a `uint16_t`: below 20 it wraps round.
pub ipv4_handler : Array → Net → Option Net
unfolding icmp_handler
ipv4_handler packet n =
    let dest_ip = ntohl (load32 packet 16) in
    let total_len = ntohs (load16 packet 2) in
    if not (dest_ip == my_ip) && not (dest_ip == 0xffffffff)
    then some n
    else if packet 9 == 1
    then icmp_handler (from_offset packet 20) (ntohl (load32 packet 12))
        (u16 (total_len + 65536 - 20)) n
    else some n

pub ethernet_handler : Array → Net → Option Net
unfolding arp_handler ipv4_handler
ethernet_handler packet n =
    let type = ntohs (load16 packet 12) in
    if type == 0x0806
    then arp_handler (from_offset packet 14) n
    else if type == 0x0800
    then ipv4_handler (from_offset packet 14) n
    else some n

-- What `e1000_recv_packet` gives: the length, 0 or negative as `none`, and the buffer.
pub network_handler : Option Array → Net → Option Net
unfolding ethernet_handler
network_handler none n = some n
network_handler (some buffer) n = ethernet_handler buffer n

unfoldable pub network_init : Net → Net
network_init n = record n { ping_request = record (n.ping_request) { waiting = false } }
