-- ===== src/Net/Banner/Shown.antt =====
-- What the network prints stays on the screen, and nothing of it fails.
use nedoos.Prelude.{ℕ, ◌/◌, ◌^◌, ◌<◌, [], ◌∷◌, some, arith, bit_and, Gives, some-Gives, bind-Gives}
use nedoos.Prelude.Bits.{bit_and_mask}
use nedoos.Console.{Console, print, print_dec}
use nedoos.Console.Held.{Held, print-Held, print_dec-Held}
use nedoos.Net.Banner.{
  print_ip, e1000_init, announce, network_ready, network_start, card_ready, card_start,
}
use nedoos.Net.Stack.{my_ip}

low_byte : (x : ℕ) → bit_and x 0xff < 2 ^ 32
low_byte x = omega (arith, bit_and_mask 8 x)

byte-Held :
    (v : ℕ → ℕ) (x : ℕ) (c : Console) → Held v c → Gives (Held v) (print_dec (bit_and x 0xff) c)
byte-Held v x c h = print_dec-Held v _ c (low_byte x) h

pub print_ip-Held : (v : ℕ → ℕ) (ip : ℕ) (c : Console) → Held v c → Gives (Held v) (print_ip ip c)
unfolding print_ip
print_ip-Held v ip c h = bind-Gives (Held v) (Held v) _ _ (byte-Held v ip c h) λ c1 h1.
    bind-Gives (Held v) (Held v) _ _ (byte-Held v (ip / 2 ^ 8) _ (print-Held v _ c1 h1)) λ c2 h2.
      bind-Gives (Held v) (Held v) _ _ (byte-Held v (ip / 2 ^ 16) _ (print-Held v _ c2 h2))
        λ c3 h3. byte-Held v (ip / 2 ^ 24) _ (print-Held v _ c3 h3)

pub announce-Held : (v : ℕ → ℕ) (c : Console) → Held v c → Gives (Held v) (announce c)
unfolding announce e1000_init
announce-Held v c h =
    bind-Gives (Held v) (Held v)
      (print_ip my_ip (print network_ready (e1000_init (print network_start c))))
      (λ c'. some (print (10 ∷ []) c'))
      (print_ip-Held v my_ip _ (
        print-Held v network_ready _
          (print-Held v card_ready _ (print-Held v card_start _ (print-Held v network_start c h)))))
      λ c' h'. some-Gives (Held v) _ (print-Held v _ c' h')
