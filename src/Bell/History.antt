-- ===== src/Bell/History.antt =====
-- bell.go: what is kept of the rings, and what a subscriber finds in its channel.

use camonitor.Prelude.{
  ℕ, zero, suc, ◌-◌, ◌≤◌, ◌≡◌, ◌∙◌, refl, sym, ap, inl, inr, List, [], ◌∷◌, ◌++◌, map, arith, ltb,
  leb, Bool-cases, length, take, drop, All, last_n, last_n-all, last_n-append, last_n-push_full,
  length-last_n, append_assoc, append-nil, length-drop, length-append,
}
use camonitor.Bell.Store.{BellEvent, Entry}
use camonitor.Bell.{
  BellBus, Subscriber, history_cap, channel_cap, push_history, append_history, send, broadcast,
}

-- The entries of a history that keeps the last `history_cap`.
take_all : (n : ℕ) (xs : List Entry) → length xs ≤ n → take n xs ≡ xs
take_all zero [] h = refl
take_all zero (x ∷ xs) h = absurd (omega arith)
take_all (suc n) [] h = refl
take_all (suc n) (x ∷ xs) h = ap (◌∷◌ x) (take_all n xs (omega arith))

push_history_lem :
    (hs : List Entry) (e : Entry)
    → length hs ≤ history_cap
    → push_history hs e ≡ last_n history_cap (hs ++ e ∷ [])
unfolding push_history
push_history_lem hs e h = elim (Bool-cases (leb history_cap (length hs))) [
  | inl full ↦
      let cut_one : take (history_cap - 1) (drop 1 hs) ≡ drop 1 hs =
        take_all (history_cap - 1) (drop 1 hs) (omega (arith, length-drop 1 hs)) in
      rw (full, cut_one) (sym (last_n-push_full 49 hs e (ground arith)))
  | inr room ↦
      rw room
        (sym (last_n-all history_cap (hs ++ e ∷ []) (ground (arith, length-append hs (e ∷ [])))))
]

-- One entry after the other is appended.
unfoldable pub append_all : List Entry → BellBus → BellBus
append_all [] b = b
append_all (e ∷ es) b = append_all es (append_history e b)

-- The history keeps the newest 50 of all that was ever appended, in order, whatever the history was
-- that a start of the server loaded, as long as it was no longer than that.
pub history-append_all :
    (es : List Entry) (b : BellBus)
    → length b.history ≤ history_cap
    → (append_all es b).history ≡ last_n history_cap (b.history ++ es)
unfolding append_all append_history
history-append_all [] b h =
    sym (ap (last_n history_cap) (append-nil b.history) ∙ last_n-all history_cap b.history h)
history-append_all (e ∷ es) b h =
    let p : push_history b.history e ≡ last_n history_cap (b.history ++ e ∷ []) =
      push_history_lem b.history e h in
    let short : length (push_history b.history e) ≤ history_cap =
      rw p (omega (arith, length-last_n history_cap (b.history ++ e ∷ []))) in
    history-append_all es (append_history e b) short
    ∙ ap (λ hs. last_n history_cap (hs ++ es)) p
    ∙ last_n-append history_cap (b.history ++ e ∷ []) es
    ∙ ap (last_n history_cap) (append_assoc b.history (e ∷ []) es)

unfoldable pub broadcast_all : List BellEvent → BellBus → BellBus
broadcast_all [] b = b
broadcast_all (ev ∷ evs) b = broadcast_all evs (broadcast ev b)

send_lem :
    (ev : BellEvent) (s : Subscriber)
    → length s.queue ≤ channel_cap
    → (send ev s).queue ≡ last_n channel_cap (s.queue ++ ev ∷ [])
unfolding send
send_lem ev s h = elim (Bool-cases (ltb (length s.queue) channel_cap)) [
  | inl room ↦ rw room (
      sym (
        last_n-all channel_cap (s.queue ++ ev ∷ [])
          (ground (arith, length-append s.queue (ev ∷ [])))))
  | inr full ↦ rw full (sym (last_n-push_full 7 s.queue ev (ground arith)))
]

-- What a subscriber that reads nothing finds in its channel.
abbrev pub unread : List BellEvent → Subscriber → Subscriber
unread evs s = record s { queue = last_n channel_cap (s.queue ++ evs) }

abbrev pub HasRoom : Subscriber → Type 0
HasRoom s = length s.queue ≤ channel_cap

abbrev with_queue : Subscriber → List BellEvent → Subscriber
with_queue s q = record s { queue = q }

unread_none : (ss : List Subscriber) → All HasRoom ss → ss ≡ map (unread []) ss
unread_none [] h = refl
unread_none (s ∷ ss) h =
    let q : s.queue ≡ last_n channel_cap (s.queue ++ []) =
      sym (ap (last_n channel_cap) (append-nil s.queue) ∙ last_n-all channel_cap s.queue h.0) in
    ap (λ x. with_queue s x ∷ ss) q ∙ ap (◌∷◌ (unread [] s)) (unread_none ss h.1)

unread-send :
    (ev : BellEvent) (evs : List BellEvent) (s : Subscriber)
    → HasRoom s
    → unread evs (send ev s) ≡ unread (ev ∷ evs) s
unfolding send
unread-send ev evs s h =
    ap (λ q. with_queue s (last_n channel_cap (q ++ evs))) (send_lem ev s h)
    ∙ ap (with_queue s) (last_n-append channel_cap (s.queue ++ ev ∷ []) evs)
    ∙ ap (λ q. with_queue s (last_n channel_cap q)) (append_assoc s.queue (ev ∷ []) evs)

map-unread-send :
    (ev : BellEvent) (evs : List BellEvent) (ss : List Subscriber)
    → All HasRoom ss
    → map (unread evs) (map (send ev) ss) ≡ map (unread (ev ∷ evs)) ss
map-unread-send ev evs [] h = refl
map-unread-send ev evs (s ∷ ss) h =
    ap (λ x. x ∷ map (unread evs) (map (send ev) ss)) (unread-send ev evs s h.0)
    ∙ ap (◌∷◌ (unread (ev ∷ evs) s)) (map-unread-send ev evs ss h.1)

send-HasRoom :
    (ev : BellEvent) (ss : List Subscriber) → All HasRoom ss → All HasRoom (map (send ev) ss)
send-HasRoom ev [] h = tt
send-HasRoom ev (s ∷ ss) h = (
  rw (send_lem ev s h.0) (omega (arith, length-last_n channel_cap (s.queue ++ ev ∷ []))),
  send-HasRoom ev ss h.1,
)

-- A subscriber that does not read loses the oldest events and no others: after any broadcasts its
-- channel holds the newest eight of what it held and what was sent, in order, and no subscriber is lost.
pub subs-broadcast_all :
    (evs : List BellEvent) (b : BellBus)
    → All HasRoom b.subs
    → (broadcast_all evs b).subs ≡ map (unread evs) b.subs
unfolding broadcast_all broadcast
subs-broadcast_all [] b h = unread_none b.subs h
subs-broadcast_all (ev ∷ evs) b h =
    subs-broadcast_all evs (broadcast ev b) (send-HasRoom ev b.subs h)
    ∙ map-unread-send ev evs b.subs h
