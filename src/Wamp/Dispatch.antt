-- ===== src/Wamp/Dispatch.antt =====
-- on_message and dispatch_message: from the text of a message to the callback that it is for.
-- Poco's JSON parser and values are a parameter, JsonApi.
pub mod Delivery
use rito.Common.{ℕ, Bool, true, false, Option, none, some, Bytes, empty, ◌==◌, if◌then◌else◌}
use rito.Exception.{Thrown, is_poco}
use rito.Result.{Result, ok, throw}
use rito.Act.{Act, Done, pure, raise, after, rescue, try_catch, ◌>>=◌}
use rito.Types.{
  ConnectionCallback, WampCallResultCallback, WampCallErrorCallback, WampEventCallback,
}
use rito.Wamp.Messages.{number, call_result, call_error, event}

pub record JsonApi (Var Array : Type 0) : Type 0 where
  pub parse : Bytes → Result Var
  pub extract_array : Var → Result Array
  -- the element at an index as an int, in 32 bits, and as a text
  pub get_int : Array → ℕ → Result ℕ
  pub get_string : Array → ℕ → Result Bytes

-- The callbacks of the handler's user; an empty std::function is none.
pub record WampCallbacks (V : Type 0) : Type 0 where
  pub on_connected_callback : Option (ConnectionCallback V)
  pub on_disconnected_callback : Option (ConnectionCallback V)
  pub on_call_result_callback : Option (WampCallResultCallback V)
  pub on_call_error_callback : Option (WampCallErrorCallback V)
  pub on_event_callback : Option (WampEventCallback V)

-- What the lambdas given to the websocket handler reach through `this`, and all else outside.
pub record WampWorld (V : Type 0) : Type 0 where
  pub callbacks : WampCallbacks V
  pub open callbacks use *
  pub world : V

module _ {V : Type 0} where
  abbrev pub outside : {A : Type 0} → Act V A → Act (WampWorld V) A
  outside m s = let (r, w) = m s.world in (r, record s { world = w })

  -- A computation that touches nothing.
  abbrev pub lift : {A : Type 0} → Result A → Act (WampWorld V) A
  lift r s = (r, s)

  unfoldable pub on_connected : Act (WampWorld V) Done
  on_connected s = elim s.on_connected_callback [ none ↦ (ok tt, s) | some f ↦ outside f s ]

  unfoldable pub on_disconnected : Act (WampWorld V) Done
  on_disconnected s = elim s.on_disconnected_callback [ none ↦ (ok tt, s) | some f ↦ outside f s ]

  unfoldable pub on_call_result : Bytes → Bytes → Act (WampWorld V) Done
  on_call_result identifier json_data s = elim s.on_call_result_callback [
    | none ↦ (ok tt, s)
    | some f ↦ outside (f identifier json_data) s
  ]

  unfoldable pub on_call_error : Bytes → Bytes → Bytes → Act (WampWorld V) Done
  on_call_error identifier error error_description s = elim s.on_call_error_callback [
    | none ↦ (ok tt, s)
    | some f ↦ outside (f identifier error error_description) s
  ]

  unfoldable pub on_event : Bytes → Bytes → Act (WampWorld V) Done
  on_event name json_data s = elim s.on_event_callback [
    | none ↦ (ok tt, s)
    | some f ↦ outside (f name json_data) s
  ]

  -- `catch (Exception&)`, which is Poco's here: this file does not see rito's.
  abbrev pub swallow : Thrown → Act (WampWorld V) Done
  swallow e = if is_poco e then pure tt else raise e

module _ {Var Array : Type 0} (json : JsonApi Var Array) {V : Type 0} where
  unfoldable pub parse_call_result : Array → Act (WampWorld V) (Bytes × Bytes)
  parse_call_result a = do
    call_id ← lift (json.get_string a 1)
    result ← lift (json.get_string a 2)
    pure (call_id, result)

  unfoldable pub parse_call_error : Array → Act (WampWorld V) (Bytes × Bytes × Bytes)
  parse_call_error a = do
    call_id ← lift (json.get_string a 1)
    error ← lift (json.get_string a 2)
    error_description ← lift (json.get_string a 3)
    pure (call_id, error, error_description)

  unfoldable pub parse_event : Array → Act (WampWorld V) (Bytes × Bytes)
  parse_event a = do
    event_name ← lift (json.get_string a 1)
    event_data ← lift (json.get_string a 2)
    pure (event_name, event_data)

  -- The `switch`: any other number is passed over.
  unfoldable pub switch : ℕ → Array → Act (WampWorld V) Done
  switch wamp_message_id a =
      if wamp_message_id == number call_result
      then (do (id, json_data) ← parse_call_result a; on_call_result id json_data)
      else if wamp_message_id == number call_error
      then (do
        (id, error, error_description) ← parse_call_error a
        on_call_error id error error_description)
      else if wamp_message_id == number event
      then (do (name, json_data) ← parse_event a; on_event name json_data)
      else pure tt

  unfoldable pub dispatch_message : Bytes → Act (WampWorld V) Done
  dispatch_message message =
      try_catch
        (do
          message_var ← lift (json.parse message)
          message_json_array ← lift (json.extract_array message_var)
          wamp_message_id ← lift (json.get_int message_json_array 0)
          switch wamp_message_id message_json_array)
        swallow

  unfoldable pub on_message : Bytes → Act (WampWorld V) Done
  on_message message = if empty message then pure tt else dispatch_message message
