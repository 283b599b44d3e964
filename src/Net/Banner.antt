-- ===== src/Net/Banner.antt =====
-- kernel/net/network.c and kernel/drivers/e1000.c: what the network prints as it starts.
pub mod Shown
use nedoos.Prelude.{ℕ, ◌*◌, ◌/◌, ◌^◌, bit_and, List, [], ◌∷◌, Option, none, some, ◌>>=◌}
use nedoos.Console.{Console, print, print_dec}
use nedoos.Net.Stack.{Net, my_ip, network_init}

abbrev dot : List ℕ
dot = 46 ∷ []

pub print_ip : ℕ → Console → Option Console
print_ip ip c = do
  c1 ← print_dec (bit_and ip 0xff) c
  c2 ← print_dec (bit_and (ip / 2 ^ 8) 0xff) (print dot c1)
  c3 ← print_dec (bit_and (ip / 2 ^ 16) 0xff) (print dot c2)
  print_dec (bit_and (ip / 2 ^ 24) 0xff) (print dot c3)

abbrev pub network_start : List ℕ
network_start =
    78 ∷ 101 ∷ 116 ∷ 119 ∷ 111 ∷ 114 ∷ 107 ∷ 58 ∷ 32 ∷ 73 ∷ 110 ∷ 105 ∷ 116 ∷ 105 ∷ 97 ∷ 108 ∷ 105
    ∷ 122 ∷ 105 ∷ 110 ∷ 103 ∷ 46 ∷ 46 ∷ 46 ∷ 10 ∷ []

abbrev pub card_start : List ℕ
card_start =
    69 ∷ 49 ∷ 48 ∷ 48 ∷ 48 ∷ 58 ∷ 32 ∷ 73 ∷ 110 ∷ 105 ∷ 116 ∷ 105 ∷ 97 ∷ 108 ∷ 105 ∷ 122 ∷ 105 ∷ 110
    ∷ 103 ∷ 46 ∷ 46 ∷ 46 ∷ 10 ∷ []

abbrev pub card_ready : List ℕ
card_ready = 69 ∷ 49 ∷ 48 ∷ 48 ∷ 48 ∷ 58 ∷ 32 ∷ 82 ∷ 101 ∷ 97 ∷ 100 ∷ 121 ∷ 10 ∷ []

abbrev pub network_ready : List ℕ
network_ready =
    78 ∷ 101 ∷ 116 ∷ 119 ∷ 111 ∷ 114 ∷ 107 ∷ 58 ∷ 32 ∷ 82 ∷ 101 ∷ 97 ∷ 100 ∷ 121 ∷ 46 ∷ 32 ∷ 73 ∷ 80
    ∷ 61 ∷ []

-- `e1000_init` does not use its arguments.
pub e1000_init : Console → Console
e1000_init c = print card_ready (print card_start c)

-- All that `network_init` does but for the request that waits.
pub announce : Console → Option Console
announce c = do
  c' ← print_ip my_ip (print network_ready (e1000_init (print network_start c)))
  some (print (10 ∷ []) c')
