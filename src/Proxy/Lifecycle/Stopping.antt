-- ===== src/Proxy/Lifecycle/Stopping.antt =====
-- pkg/proxy/proxy.go: when the loop of `Start` ends, and with what error.
use mathlib.Core.List.{append_assoc}
use native.Mathlib.Decide.{dec_lt}
use s_ingress.Common.Texts.{Text, codes}
use s_ingress.Common.{
  Bool, Bool-cases, List, Option, [], any, arith, false, inl, inr, is_none, length, length-append,
  ltb, none, not, refl, some, suc, take, take-length-append, true, ℕ, ◌++◌, ◌<◌, ◌∙◌, ◌∷◌, ◌≡◌, ◌≤◌,
}
use s_ingress.Proxy.Lifecycle.{
  Event, Proxy, Running, Serving, begin_serving, ended, finish, group_errors, handle_event,
  reconfigured, serve_events, signalled, start_returned, still_serving,
}

-- The messages that the loop receives from its listeners.
abbrev pub messages : List Event → List (Option Text)
messages [] = []
messages (ended m ∷ es) = m ∷ messages es
messages (reconfigured conf ∷ es) = messages es
messages (signalled ∷ es) = messages es

-- All rounds on a list of events.
abbrev pub handle_events : List Event → Serving → Serving
handle_events [] s = s
handle_events (e ∷ es) s = handle_events es (handle_event e s)

-- Whether a message is an error.
abbrev pub is_error : Option Text → Bool
is_error m = not (is_none m)

handle_event-messages :
    (e : Event) (es : List Event) (s : Serving)
    → (handle_event e s).handler_errors ++ messages es ≡ s.handler_errors ++ messages (e ∷ es)
unfolding handle_event
handle_event-messages (reconfigured conf) es s = refl
handle_event-messages (ended m) es s = append_assoc s.handler_errors (m ∷ []) (messages es)
handle_event-messages signalled es s = elim (Bool-cases s.shutdown_initiated) [
  | inl e ↦ rw e refl
  | inr e ↦ rw e refl
]

handle_event-length :
    (e : Event) (s : Serving)
    → length (handle_event e s).handler_errors ≤ suc (length s.handler_errors)
unfolding handle_event
handle_event-length (reconfigured conf) s = omega arith
handle_event-length (ended m) s = omega (arith, length-append s.handler_errors (m ∷ []))
handle_event-length signalled s = elim (Bool-cases s.shutdown_initiated) [
  | inl e ↦ rw e (omega arith)
  | inr e ↦ rw e (omega arith)
]

serve_events-full :
    (n : ℕ) (es : List Event) (s : Serving)
    → ltb (length s.handler_errors) n ≡ false
    → serve_events n es s ≡ finish s
unfolding serve_events
serve_events-full n [] s h = rw h refl
serve_events-full n (e ∷ es) s h = rw h refl

take-full : {A : Type 0} (n : ℕ) (xs ys : List A) → n ≡ length xs → take n (xs ++ ys) ≡ xs
take-full n xs ys e = rw e (take-length-append xs ys)

serve_events-next :
    (n : ℕ) (e : Event) (es : List Event) (s : Serving)
    → ltb (length s.handler_errors) n ≡ true
    → serve_events n (e ∷ es) s ≡ serve_events n es (handle_event e s)
unfolding serve_events
serve_events-next n e es s h = rw h refl

module _ (n : ℕ) where
  -- The loop returns once it has `n` messages, with the first `n` of them.
  abbrev Fills : List Event → Serving → Type 0
  Fills es s =
      (q : Proxy) × (serve_events n es s
        ≡ start_returned (group_errors none (take n (s.handler_errors ++ messages es))) q)

  full-Fills :
      (es : List Event) (s : Serving)
      → length s.handler_errors ≤ n
      → ltb (length s.handler_errors) n ≡ false
      → Fills es s
  unfolding finish
  full-Fills es s below full =
      let e : n ≡ length s.handler_errors = ground (arith, below, full) in
      (
        record s.state { servers_cancelled = true },
        rw (take-full n s.handler_errors (messages es) e) (serve_events-full n es s full),
      )

  serve_events-Fills :
      (es : List Event) (s : Serving)
      → length s.handler_errors ≤ n
      → n ≤ length (s.handler_errors ++ messages es)
      → Fills es s
  serve_events-Fills [] s below enough =
      full-Fills [] s below (ground (arith, below, enough, length-append s.handler_errors []))
  serve_events-Fills (e ∷ es) s below enough = elim (Bool-cases (ltb (length s.handler_errors) n)) [
    | inr full ↦ full-Fills (e ∷ es) s below full
    | inl more ↦
        let same = handle_event-messages e es s in
        let (q, h) =
          serve_events-Fills es (handle_event e s) (ground (arith, more, handle_event-length e s))
            (rw same enough) in
        (q, serve_events-next n e es s more ∙ h ∙ rw same refl)
  ]

  serve_events-waits :
      (es : List Event) (s : Serving)
      → length (s.handler_errors ++ messages es) < n
      → serve_events n es s ≡ still_serving (handle_events es s)
  unfolding serve_events
  serve_events-waits [] s few =
      let h : ltb (length s.handler_errors) n ≡ true =
        ground (arith, few, length-append s.handler_errors []) in
      rw h refl
  serve_events-waits (e ∷ es) s few =
      let h : ltb (length s.handler_errors) n ≡ true =
        ground (arith, few, length-append s.handler_errors (messages (e ∷ es))) in
      serve_events-next n e es s h
      ∙ serve_events-waits es (handle_event e s) (rw (handle_event-messages e es s) few)

group_errors-some :
    (g : Text) (ms : List (Option Text)) → is_none (group_errors (some g) ms) ≡ false
unfolding group_errors
group_errors-some g [] = refl
group_errors-some g (none ∷ ms) = group_errors-some g ms
group_errors-some g (some m ∷ ms) = group_errors-some (g ++ codes " " ++ m) ms

group_errors-is_none :
    (ms : List (Option Text)) → is_none (group_errors none ms) ≡ not (any is_error ms)
unfolding group_errors
group_errors-is_none [] = refl
group_errors-is_none (none ∷ ms) = group_errors-is_none ms
group_errors-is_none (some m ∷ ms) = group_errors-some (codes "%!w(<nil>) " ++ m) ms

-- How a run of the loop of `Start` stands after the events `es`.
pub data Stands (n : ℕ) (p : Proxy) (es : List Event) : Running → Type 0 where
  in_loop :
      length (messages es) < n → Stands n p es (still_serving (handle_events es (begin_serving p)))
  over :
      {q : Proxy} {e : Option Text}
      → n ≤ length (messages es)
      → is_none e ≡ not (any is_error (take n (messages es)))
      → Stands n p es (start_returned e q)

-- With `n` listeners, the loop of `Start` ends with the `n`-th message that it receives, whatever
-- configurations and signals come in between, and not before it. It returns nil if none of these
-- `n` messages is an error, and an error otherwise.
pub serve_events-Stands :
    (n : ℕ) (p : Proxy) (es : List Event) → Stands n p es (serve_events n es (begin_serving p))
unfolding begin_serving
serve_events-Stands n p es = elim (dec_lt (length (messages es)) n) [
  | yes few ↦ rw (serve_events-waits n es (begin_serving p) few) (in_loop few)
  | no many ↦
      let (q, h) = serve_events-Fills n es (begin_serving p) (omega arith) (omega arith) in
      rw h (over (omega arith) (group_errors-is_none (take n (messages es))))
]

-- The state of a loop that has not ended.
pub still_serving-state :
    (n : ℕ) (p : Proxy) (es : List Event) (s : Serving)
    → serve_events n es (begin_serving p) ≡ still_serving s
    → s ≡ handle_events es (begin_serving p)
unfolding begin_serving
still_serving-state n p es s h = elim (dec_lt (length (messages es)) n) [
  | yes few ↦ let e = serve_events-waits n es (begin_serving p) few in cc
  | no many ↦
      let (q, e) = serve_events-Fills n es (begin_serving p) (omega arith) (omega arith) in cc
]
