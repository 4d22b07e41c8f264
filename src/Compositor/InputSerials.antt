-- ===== src/Compositor/InputSerials.antt =====
-- compositor/input_serials.rs: the last 64 user actions, each with the client that received it.
use mathlib.Core.List.{append-nil, append_assoc}
use moonshine.Common.{
  ℕ, ◌+◌, ◌-◌, ◌≤◌, Bool, true, false, ◌||◌, ◌&&◌, List, [], ◌∷◌, ◌++◌, length, drop, ◌==◌, ◌≡◌,
  refl, sym, ap, if◌then◌else◌, arith, length-append, drop_append_left, length-drop, drop-drop, ◌∙◌,
  dec_lt,
}

abbrev pub capacity : ℕ
capacity = 64

-- `InputSerials`: the queue's front first
pub record InputSerials {ℓ} (Client : Type ℓ) : Type ℓ where
  pub entries : List (ℕ × Client)

-- `Default`
unfoldable pub default {ℓ} : {Client : Type ℓ} → InputSerials Client
default = record { entries = [] }

-- `VecDeque::pop_front`
abbrev pop_front {ℓ} : {A : Type ℓ} → List A → List A
pop_front [] = []
pop_front (x ∷ xs) = xs

-- `InputSerials::record`
unfoldable pub record_serial {ℓ} :
    {Client : Type ℓ} → InputSerials Client → ℕ → Client → InputSerials Client
record_serial s serial client =
    let kept = if length s.entries == capacity then pop_front s.entries else s.entries in
    record { entries = kept ++ ((serial, client) ∷ []) }

abbrev pub any {ℓ} : {A : Type ℓ} → (A → Bool) → List A → Bool
any p [] = false
any p (x ∷ xs) = p x || any p xs

-- `InputSerials::contains`, with the client's own equality
unfoldable pub contains {ℓ} :
    {Client : Type ℓ} → (Client → Client → Bool) → InputSerials Client → ℕ → Client → Bool
contains eq s serial client = any (λ e. (e.0 == serial) && eq (e.1) client) s.entries

-- `InputSerials::clear`
unfoldable pub clear {ℓ} : {Client : Type ℓ} → InputSerials Client → InputSerials Client
clear s = record { entries = [] }

-- Recording a sequence of actions, the oldest first.
unfoldable pub record_all {ℓ} :
    {Client : Type ℓ} → InputSerials Client → List (ℕ × Client) → InputSerials Client
record_all s [] = s
record_all s (a ∷ as') = record_all (record_serial s (a.0) (a.1)) as'

-- The last 64 of a list.
abbrev pub last_64 {ℓ} : {A : Type ℓ} → List A → List A
last_64 xs = drop (length xs - capacity) xs

drop_one {ℓ} : {A : Type ℓ} (xs : List A) → pop_front xs ≡ drop 1 xs
drop_one [] = refl
drop_one (x ∷ xs) = refl

-- One more action on the last 64 of a history is the last 64 of the longer history.
record_last {ℓ} :
    {Client : Type ℓ} (s : InputSerials Client) (h : List (ℕ × Client)) (a : ℕ × Client)
    → s.entries ≡ last_64 h
    → (record_serial s (a.0) (a.1)).entries ≡ last_64 (h ++ (a ∷ []))
unfolding record_serial
record_last s h a e =
    let n : length (h ++ (a ∷ [])) ≡ length h + 1 = length-append h (a ∷ []) in
    let m : length (drop (length h - 64) h) ≡ length h - (length h - 64) =
      length-drop (length h - 64) h in
    let fits : length h + 1 - 64 ≤ length h = omega arith in
    rw (n, drop_append_left (length h + 1 - 64) h (a ∷ []) fits, e)
      (elim (dec_lt (length h) 64) [
        | yes short ↦
            let all : length h - 64 ≡ 0 = omega arith in
            let all' : length h + 1 - 64 ≡ 0 = omega arith in
            let kept : (length h == 64) ≡ false = ground arith in rw (all, all', kept) refl
        | no long ↦
            let full : (length (drop (length h - 64) h) == 64) ≡ true = ground arith in
            rw
              (
                full,
                drop_one (drop (length h - 64) h),
                drop-drop (length h - 64) 1 (length h + 1 - 64) h (omega arith),
              )
              refl
      ])

-- Recording one action after another keeps the last 64 of them all.
pub record_all_lem {ℓ} :
    {Client : Type ℓ} (h l : List (ℕ × Client)) (s : InputSerials Client)
    → s.entries ≡ last_64 h
    → (record_all s l).entries ≡ last_64 (h ++ l)
unfolding record_all
record_all_lem h [] s e = e ∙ ap (λ t. last_64 t) (sym (append-nil h))
record_all_lem h (a ∷ l) s e =
    record_all_lem (h ++ (a ∷ [])) l (record_serial s (a.0) (a.1)) (record_last s h a e)
    ∙ ap (λ t. last_64 t) (append_assoc h (a ∷ []) l)

-- After a `clear` and any sequence of recorded actions, an action is found exactly where it is one of
-- the last 64 of the sequence: nothing from before the `clear`, and nothing older, authorises a client.
pub contains-record_all {ℓ} :
    {Client : Type ℓ} (eq : Client → Client → Bool) (s : InputSerials Client)
    (l : List (ℕ × Client)) (serial : ℕ) (client : Client)
    → contains eq (record_all (clear s) l) serial client
      ≡ any (λ e. (e.0 == serial) && eq (e.1) client) (last_64 l)
unfolding contains clear
contains-record_all eq s l serial client =
    ap (λ es. any (λ e. (e.0 == serial) && eq (e.1) client) es) (record_all_lem [] l (clear s) refl)
