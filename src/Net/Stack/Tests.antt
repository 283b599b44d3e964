-- ===== src/Net/Stack/Tests.antt =====
-- A host whose address is known, and the theorems applied to it.
use nedoos.Prelude.{◌≡◌, inl, refl, [], ◌∷◌, none, Array, arith, false, ◌==◌, if◌then◌else◌}
use nedoos.Net.Bytes.{ntohl, ntohs}
use nedoos.Net.Stack.{Net, ipv4_handler}
use nedoos.Net.Stack.Echo.{ipv4_handler_overflow}

abbrev net : Net
net = record {
  arp_table = λ i. record { ip = 7; mac = 1 ∷ 2 ∷ 3 ∷ 4 ∷ 5 ∷ 6 ∷ []; age = 0 };
  arp_table_count = 1;
  ping_request = record { ip = 0; id = 0; seq = 0; tries = 0; waiting = false };
  sent = [];
}

-- An echo request.
abbrev echo : Array
echo i = if i == 0 then 8 else 0

-- An IPv4 packet for 10.0.2.15 whose total length is 0.
abbrev bad : Array
bad i =
    if i == 9
    then 1
    else if i == 16
    then 10
    else if i == 18
    then 2
    else if i == 19
    then 15
    else if i == 20
    then 8
    else 0

ipv4_handler_overflow_example : ipv4_handler bad net ≡ none
ipv4_handler_overflow_example =
    ipv4_handler_overflow bad net 0 (unfold ntohl in refl) refl refl (unfold ntohs in refl)
      (omega arith) (inl (omega arith))
