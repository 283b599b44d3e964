-- ===== src/Shell/Line/Parse.antt =====
-- kernel/kernel.c: how `kernel_main` tells the commands apart.
use nedoos.Prelude.{ℕ, Bool, true, false, List, [], ◌∷◌, ◌==◌, if◌then◌else◌, drop}
use nedoos.Shell.Strings.{strcmp_zero}

pub data Command : Type 0 where
  help mount ls pwd color reboot clear ifconfig nothing cat_usage : Command
  cat cd echo ping netcat unknown : List ℕ → Command

-- p[0] == w[0] && p[1] == w[1] && ...
pub starts : List ℕ → List ℕ → Bool
starts [] p = true
starts (w ∷ ws) [] = false
starts (w ∷ ws) (c ∷ cs) = let rest = starts ws cs in if c == w then rest else false

-- p[0] == ' '
abbrev pub at_space : List ℕ → Bool
at_space p = starts (32 ∷ []) p

abbrev pub w_help : List ℕ
w_help = 104 ∷ 101 ∷ 108 ∷ 112 ∷ []

abbrev pub w_mount : List ℕ
w_mount = 109 ∷ 111 ∷ 117 ∷ 110 ∷ 116 ∷ []

abbrev pub w_ls : List ℕ
w_ls = 108 ∷ 115 ∷ []

abbrev pub w_cat : List ℕ
w_cat = 99 ∷ 97 ∷ 116 ∷ []

abbrev pub w_cd : List ℕ
w_cd = 99 ∷ 100 ∷ []

abbrev pub w_pwd : List ℕ
w_pwd = 112 ∷ 119 ∷ 100 ∷ []

abbrev pub w_echo : List ℕ
w_echo = 101 ∷ 99 ∷ 104 ∷ 111 ∷ []

abbrev pub w_color : List ℕ
w_color = 99 ∷ 111 ∷ 108 ∷ 111 ∷ 114 ∷ []

abbrev pub w_ping : List ℕ
w_ping = 112 ∷ 105 ∷ 110 ∷ 103 ∷ 32 ∷ []

abbrev pub w_reboot : List ℕ
w_reboot = 114 ∷ 101 ∷ 98 ∷ 111 ∷ 111 ∷ 116 ∷ []

abbrev pub w_clear : List ℕ
w_clear = 99 ∷ 108 ∷ 101 ∷ 97 ∷ 114 ∷ []

abbrev pub w_ifconfig : List ℕ
w_ifconfig = 105 ∷ 102 ∷ 99 ∷ 111 ∷ 110 ∷ 102 ∷ 105 ∷ 103 ∷ []

abbrev pub w_nc : List ℕ
w_nc = 110 ∷ 99 ∷ 32 ∷ []

-- if (p[0]) ...
pub other : List ℕ → Command
other [] = nothing
other (c ∷ cs) = unknown (c ∷ cs)

unfoldable pub parse : List ℕ → Command
unfolding starts other
parse p =
    if strcmp_zero p w_help
    then help
    else if strcmp_zero p w_mount
    then mount
    else if strcmp_zero p w_ls
    then ls
    else if starts w_cat p
    then (if at_space (drop 3 p) then cat (drop 4 p) else cat_usage)
    else if starts w_cd p
    then (if at_space (drop 2 p) then cd (drop 3 p) else cd [])
    else if strcmp_zero p w_pwd
    then pwd
    else if starts w_echo p
    then echo (drop 4 p)
    else if strcmp_zero p w_color
    then color
    else if starts w_ping p
    then ping (drop 5 p)
    else if strcmp_zero p w_reboot
    then reboot
    else if strcmp_zero p w_clear
    then clear
    else if strcmp_zero p w_ifconfig
    then ifconfig
    else if starts w_nc p
    then netcat (drop 3 p)
    else other p
