-- ===== src/Shell/History.antt =====
-- kernel/kernel.c: the history of the last 16 commands.
pub mod Recall
pub mod Overrun
use nedoos.Prelude.{
  ℕ, zero, suc, ◌+◌, ◌-◌, ◌%◌, Bool, List, [], ◌∷◌, Option, none, some, update, ltb, leb, ◌==◌,
  if◌then◌else◌,
}
use nedoos.Shell.Strings.{strcmp_zero}

abbrev pub max_history : ℕ
max_history = 16

-- The position -1 is `none`.
pub record History : Type 0 where
  pub history : ℕ → List ℕ
  pub history_count : ℕ
  pub history_pos : Option ℕ

abbrev pub push : History → List ℕ → History
push h cmd = record {
  history = update h.history (h.history_count % max_history) cmd;
  history_count = h.history_count + 1;
  history_pos = some (h.history_count + 1);
}

-- Reading past the array is a fault.
pub history_add : List ℕ → History → Option History
history_add [] h = some h
history_add (c ∷ cs) h =
    if ltb 0 h.history_count
    then (if ltb (h.history_count - 1) max_history
        then (if strcmp_zero (h.history (h.history_count - 1)) (c ∷ cs)
            then some h
            else some (push h (c ∷ cs)))
        else none)
    else some (push h (c ∷ cs))

-- The result is the new state and the pointer that is returned, null when it is `none`.
abbrev pub Recalled : Type 0
Recalled = Option (History × Option (List ℕ))

-- `history[-1]` is a fault.
pub prev_from : History → Option ℕ → Recalled
prev_from h none = none
prev_from h (some pos) =
    let pos' = if ltb 0 pos then pos - 1 else pos in
    some (record h { history_pos = some pos' }, some (h.history (pos' % max_history)))

pub history_get_prev : History → Recalled
unfolding prev_from
history_get_prev h = if h.history_count == 0 then some (h, none) else prev_from h h.history_pos

-- history_pos++ of -1 is 0.
abbrev pub after : Option ℕ → ℕ
after none = 0
after (some pos) = pos + 1

pub history_get_next : History → Recalled
history_get_next h =
    if h.history_count == 0
    then some (h, none)
    else let next = after h.history_pos in
      let pos = if leb h.history_count next then h.history_count - 1 else next in
      some (record h { history_pos = some pos }, some (h.history (pos % max_history)))
