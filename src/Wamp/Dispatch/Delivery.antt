-- ===== src/Wamp/Dispatch/Delivery.antt =====
-- Which callback a message reaches, and with what.
use mathlib.Core.Option
use rito.Common.{
  ℕ, true, [], ◌∷◌, Bytes, empty, ◌≡◌, ◌≢◌, refl, subst, inl, inr, arith, Bool-cases, Option, none,
  some, Option-cases, sym, ◌∙◌,
}
use rito.Exception.{Thrown, is_poco, poco_timeout, poco_websocket, poco_message, poco_other}
use rito.Result.{ok, throw, Result-cases, Result}
use rito.Act.{Act, Done, pure, rescue, Act-cases}
use rito.Wamp.Dispatch.{
  JsonApi, WampWorld, on_call_result, on_call_error, on_event, parse_call_result, parse_call_error,
  parse_event, switch, swallow, dispatch_message, on_message, WampCallbacks,
}

-- What a message says, once read.
pub data Event : Type 0 where
  result : Bytes → Bytes → Event
  error : Bytes → Bytes → Bytes → Event
  occurrence : Bytes → Bytes → Event
  ignored : Event

-- A subclass of Poco::Exception.
pub data IsPoco : Thrown → Type 0 where
  is_timeout : (what : Bytes) → IsPoco (poco_timeout what)
  is_websocket : (what : Bytes) → IsPoco (poco_websocket what)
  is_message : (what : Bytes) → IsPoco (poco_message what)
  is_other : (what : Bytes) → IsPoco (poco_other what)

module _ {V : Type 0} where
  -- The callback for an event, given the event's parts in the order of the protocol.
  abbrev pub callback_for : Event → WampCallbacks V → Option (Act V Done)
  callback_for (result i d) cs = Option.map (λ f. f i d) cs.on_call_result_callback
  callback_for (error i e d) cs = Option.map (λ f. f i e d) cs.on_call_error_callback
  callback_for (occurrence n d) cs = Option.map (λ f. f n d) cs.on_event_callback
  callback_for ignored cs = none

  -- How an event is handed on: nothing is done where there is no callback for it; otherwise that is
  -- called once, and what it throws is dropped if it is Poco's.
  pub data Hands (e : Event) (s : WampWorld V) (r : Result Done) (t : WampWorld V) : Type 0 where
    no_callback : callback_for e s.callbacks ≡ none → r ≡ ok tt → t ≡ s → Hands e s r t
    called :
        (f : Act V Done) (w : V)
        → callback_for e s.callbacks ≡ some f
        → f s.world ≡ (ok tt, w)
        → r ≡ ok tt
        → t ≡ record s { world = w }
        → Hands e s r t
    dropped :
        (f : Act V Done) (x : Thrown) (w : V)
        → callback_for e s.callbacks ≡ some f
        → f s.world ≡ (throw x, w)
        → IsPoco x
        → r ≡ ok tt
        → t ≡ record s { world = w }
        → Hands e s r t
    goes_on :
        (f : Act V Done) (x : Thrown) (w : V)
        → callback_for e s.callbacks ≡ some f
        → f s.world ≡ (throw x, w)
        → ¬ IsPoco x
        → r ≡ throw x
        → t ≡ record s { world = w }
        → Hands e s r t

is_poco-IsPoco : {x : Thrown} → IsPoco x → is_poco x ≡ true
unfolding is_poco
is_poco-IsPoco (is_timeout w) = refl
is_poco-IsPoco (is_websocket w) = refl
is_poco-IsPoco (is_message w) = refl
is_poco-IsPoco (is_other w) = refl

IsPoco-is_poco : (x : Thrown) → is_poco x ≡ true → IsPoco x
unfolding is_poco
IsPoco-is_poco (poco_timeout w) h = is_timeout w
IsPoco-is_poco (poco_websocket w) h = is_websocket w
IsPoco-is_poco (poco_message w) h = is_message w
IsPoco-is_poco (poco_other w) h = is_other w
IsPoco-is_poco _ h = absurd (ground arith)

module _ {Var Array : Type 0} (json : JsonApi Var Array) where
  -- What the elements of an array say, by the protocol: number, identifier or event, and data.
  pub data Says (a : Array) : Event → Type 0 where
    says_result :
        (i d : Bytes)
        → json.get_int a 0 ≡ ok 3
        → json.get_string a 1 ≡ ok i
        → json.get_string a 2 ≡ ok d
        → Says a (result i d)
    says_error :
        (i e d : Bytes)
        → json.get_int a 0 ≡ ok 4
        → json.get_string a 1 ≡ ok i
        → json.get_string a 2 ≡ ok e
        → json.get_string a 3 ≡ ok d
        → Says a (error i e d)
    says_event :
        (n d : Bytes)
        → json.get_int a 0 ≡ ok 8
        → json.get_string a 1 ≡ ok n
        → json.get_string a 2 ≡ ok d
        → Says a (occurrence n d)
    says_other : (k : ℕ) → json.get_int a 0 ≡ ok k → k ≢ 3 → k ≢ 4 → k ≢ 8 → Says a ignored

  pub record Reads (message : Bytes) (e : Event) : Type 0 where
    pub var : Var
    pub array : Array
    pub parsed : json.parse message ≡ ok var
    pub extracted : json.extract_array var ≡ ok array
    pub says : Says array e

  -- Only Poco's exceptions come from the JSON library.
  pub record OnlyPoco : Type 0 where
    pub parse_throws : (m : Bytes) (e : Thrown) → json.parse m ≡ throw e → is_poco e ≡ true
    pub extract_throws : (v : Var) (e : Thrown) → json.extract_array v ≡ throw e → is_poco e ≡ true
    pub int_throws :
        (a : Array) (i : ℕ) (e : Thrown) → json.get_int a i ≡ throw e → is_poco e ≡ true
    pub string_throws :
        (a : Array) (i : ℕ) (e : Thrown) → json.get_string a i ≡ throw e → is_poco e ≡ true

  Says-number : (a : Array) (e : Event) → Says a e → (k : ℕ) × (json.get_int a 0 ≡ ok k)
  Says-number a e (says_result i d n p q) = (3, n)
  Says-number a e (says_error i x d n p q r) = (4, n)
  Says-number a e (says_event i d n p q) = (8, n)
  Says-number a e (says_other j n x y z) = (j, n)

  module _ {V : Type 0} where
    -- The one callback that an event is for.
    abbrev pub deliver : Event → Act (WampWorld V) Done
    deliver (result i d) = on_call_result i d
    deliver (error i e d) = on_call_error i e d
    deliver (occurrence n d) = on_event n d
    deliver ignored = pure tt

    switch-deliver :
        (a : Array) (e : Event) (k : ℕ) (s : WampWorld V)
        → Says a e
        → json.get_int a 0 ≡ ok k
        → switch json k a s ≡ deliver e s
    unfolding switch parse_call_result parse_call_error parse_event
    switch-deliver a e k s (says_result i d n p q) h = ground arith
    switch-deliver a e k s (says_error i x d n p q r) h = ground arith
    switch-deliver a e k s (says_event i d n p q) h = ground arith
    switch-deliver a e k s (says_other j n x y z) h = ground arith

    pub on_message-deliver :
        (message : Bytes) (e : Event) (s : WampWorld V)
        → message ≢ []
        → Reads message e
        → on_message json message s ≡ rescue (deliver e s) swallow
    unfolding on_message dispatch_message
    on_message-deliver [] e s h r = absurd (h refl)
    on_message-deliver (c ∷ cs) e s h r =
        let (k, q) = Says-number r.array e r.says in
        ground (arith, r.parsed, r.extracted, q, switch-deliver r.array e k s r.says q)

    -- What `deliver` calls.
    deliver-called :
        (e : Event) (s : WampWorld V) (f : Act V Done)
        → callback_for e s.callbacks ≡ some f
        → deliver e s ≡ ((f s.world).0, record s { world = (f s.world).1 })
    unfolding on_call_result on_call_error on_event
    deliver-called (result i d) s f h = elim (Option-cases s.on_call_result_callback) [
      | inl n ↦ absurd (ground arith)
      | inr (g, q) ↦ ground arith
    ]
    deliver-called (error i e d) s f h = elim (Option-cases s.on_call_error_callback) [
      | inl n ↦ absurd (ground arith)
      | inr (g, q) ↦ ground arith
    ]
    deliver-called (occurrence n d) s f h = elim (Option-cases s.on_event_callback) [
      | inl n ↦ absurd (ground arith)
      | inr (g, q) ↦ ground arith
    ]
    deliver-called ignored s f h = absurd (ground arith)

    deliver-uncalled :
        (e : Event) (s : WampWorld V) → callback_for e s.callbacks ≡ none → deliver e s ≡ (ok tt, s)
    unfolding on_call_result on_call_error on_event
    deliver-uncalled (result i d) s h = elim (Option-cases s.on_call_result_callback) [
      | inl n ↦ ground arith
      | inr (g, q) ↦ absurd (ground arith)
    ]
    deliver-uncalled (error i e d) s h = elim (Option-cases s.on_call_error_callback) [
      | inl n ↦ ground arith
      | inr (g, q) ↦ absurd (ground arith)
    ]
    deliver-uncalled (occurrence n d) s h = elim (Option-cases s.on_event_callback) [
      | inl n ↦ ground arith
      | inr (g, q) ↦ absurd (ground arith)
    ]
    deliver-uncalled ignored s h = refl

    -- There is one way to hand an event on.
    pub Hands-rescue :
        {e : Event} {s t : WampWorld V} {r : Result Done}
        → Hands e s r t
        → rescue (deliver e s) swallow ≡ (r, t)
    Hands-rescue {e} {s} (no_callback n p q) = rw (p, q) (rw (deliver-uncalled e s n) refl)
    Hands-rescue {e} {s} (called f w c h p q) = rw (p, q) (rw (deliver-called e s f c) (rw h refl))
    Hands-rescue {e} {s} (dropped f x w c h k p q) =
        rw (p, q) (rw (deliver-called e s f c) (rw h (rw (is_poco-IsPoco k) refl)))
    Hands-rescue {e} {s} (goes_on f x w c h k p q) =
        rw (p, q)
          (rw (deliver-called e s f c) (
            rw h (elim (Bool-cases (is_poco x)) [
              | inl t ↦ absurd (k (IsPoco-is_poco x t))
              | inr n ↦ rw n refl
            ])))

    -- A non-empty message that reads as an event, a result, an error or an occurrence, is handed to
    -- the callback for that event, with the parts of the message in order, and to no other; where
    -- there is no callback, or the message has another number, nothing is done. An exception of the
    -- callback is dropped if it is Poco's, and any other goes on.
    pub on_message-Hands :
        (message : Bytes) (e : Event) (s : WampWorld V)
        → message ≢ []
        → Reads message e
        → Hands e s (on_message json message s).0 (on_message json message s).1
    on_message-Hands message e s ne reads = elim (Option-cases (callback_for e s.callbacks)) [
      | inl n ↦ handed (no_callback n refl refl)
      | inr (f, c) ↦ elim (Act-cases (f s.world)) [
        | inl (_, w, h) ↦ handed (called f w c h refl refl)
        | inr (x, w, h) ↦ elim (Bool-cases (is_poco x)) [
          | inl p ↦ handed (dropped f x w c h (IsPoco-is_poco x p) refl refl)
          | inr p ↦ handed (goes_on f x w c h (λ k. ground (arith, is_poco-IsPoco k)) refl refl)
        ]
      ]
    ]
      where
        handed :
            {r : Result Done} {t : WampWorld V}
            → Hands e s r t
            → Hands e s (on_message json message s).0 (on_message json message s).1
        handed h =
            subst (λ p. Hands e s p.0 p.1)
              (sym (on_message-deliver message e s ne reads ∙ Hands-rescue h)) h

    module _ (only : OnlyPoco) (message : Bytes) (s : WampWorld V)
        (unread : (e : Event) → ¬ Reads message e) where
      module _ (v : Var) (a : Array) (k : ℕ) (p : json.parse message ≡ ok v)
          (x : json.extract_array v ≡ ok a) (n : json.get_int a 0 ≡ ok k) where
        unsaid : (e : Event) → ¬ Says a e
        unsaid e h = unread e (record { var = v; array = a; parsed = p; extracted = x; says = h })

        no_pair :
            (i d : Bytes)
            → json.get_string a 1 ≡ ok i
            → json.get_string a 2 ≡ ok d
            → (k ≢ 3) × (k ≢ 8)
        no_pair i d q r = (
          λ e. unsaid (result i d) (says_result i d (subst (λ m. json.get_int a 0 ≡ ok m) e n) q r),
          λ e.
              unsaid (occurrence i d)
                (says_event i d (subst (λ m. json.get_int a 0 ≡ ok m) e n) q r),
        )

        no_triple :
            (i e d : Bytes)
            → json.get_string a 1 ≡ ok i
            → json.get_string a 2 ≡ ok e
            → json.get_string a 3 ≡ ok d
            → k ≢ 4
        no_triple i e d q r t h =
            unsaid (error i e d) (says_error i e d (subst (λ m. json.get_int a 0 ≡ ok m) h n) q r t)

        strings_missing : rescue (switch json k a s) swallow ≡ (ok tt, s)
        unfolding switch parse_call_result parse_call_error parse_event
        strings_missing = elim (Result-cases (json.get_string a 1)) [
          | inr (e, q) ↦ ground (arith, only.string_throws a 1 e q)
          | inl (i, q) ↦ elim (Result-cases (json.get_string a 2)) [
            | inr (e, r) ↦ ground (arith, only.string_throws a 2 e r)
            | inl (d, r) ↦ elim (Result-cases (json.get_string a 3)) [
              | inr (e, t) ↦ ground (arith, only.string_throws a 3 e t, no_pair i d q r)
              | inl (z, t) ↦ ground (arith, no_pair i d q r, no_triple i d z q r t)
            ]
          ]
        ]

      -- Where the JSON library throws Poco's exceptions only, a message that is no such array, or too
      -- short for its number, changes nothing, calls nothing and throws nothing.
      pub on_message_unread : on_message json message s ≡ (ok tt, s)
      unfolding on_message dispatch_message
      on_message_unread = elim (Bool-cases (empty message)) [
        | inl none_there ↦ ground arith
        | inr some_there ↦ elim (Result-cases (json.parse message)) [
          | inr (e, p) ↦ ground (arith, only.parse_throws message e p)
          | inl (v, p) ↦ elim (Result-cases (json.extract_array v)) [
            | inr (e, x) ↦ ground (arith, only.extract_throws v e x)
            | inl (a, x) ↦ elim (Result-cases (json.get_int a 0)) [
              | inr (e, n) ↦ ground (arith, only.int_throws a 0 e n)
              | inl (k, n) ↦ ground (arith, strings_missing v a k p x n)
            ]
          ]
        ]
      ]
