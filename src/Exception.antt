-- ===== src/Exception.antt =====
-- include/rito/exception.h, and the other exceptions that reach a `catch` of the library. An
-- exception carries the text of its `what()`.
use rito.Common.{Bool, true, false, Option, none, some, Bytes}

pub data Thrown : Type 0 where
  -- the subclasses of rito::Exception
  unknown_exception lcu_not_running_exception lcu_parameters_exception : Bytes → Thrown
  path_not_found_exception no_region_selected_exception : Bytes → Thrown
  wrong_enum_value_exception websocket_exception message_exception : Bytes → Thrown
  -- subclasses of Poco::Exception: TimeoutException, Net::WebSocketException,
  -- Net::MessageException, and any other
  poco_timeout poco_websocket poco_message poco_other : Bytes → Thrown
  -- of the standard library: filesystem_error, out_of_range, and any other
  filesystem_error out_of_range std_other : Bytes → Thrown
  -- what does not derive from std::exception: a callback may throw it
  foreign : Thrown

-- Would `catch (rito::Exception&)` take it?
unfoldable pub is_rito : Thrown → Bool
is_rito (unknown_exception _) = true
is_rito (lcu_not_running_exception _) = true
is_rito (lcu_parameters_exception _) = true
is_rito (path_not_found_exception _) = true
is_rito (no_region_selected_exception _) = true
is_rito (wrong_enum_value_exception _) = true
is_rito (websocket_exception _) = true
is_rito (message_exception _) = true
is_rito _ = false

-- Would `catch (Poco::Exception&)`?
unfoldable pub is_poco : Thrown → Bool
is_poco (poco_timeout _) = true
is_poco (poco_websocket _) = true
is_poco (poco_message _) = true
is_poco (poco_other _) = true
is_poco _ = false

-- The text, where `catch (std::exception&)` would take it.
unfoldable pub std_what : Thrown → Option Bytes
std_what (unknown_exception w) = some w
std_what (lcu_not_running_exception w) = some w
std_what (lcu_parameters_exception w) = some w
std_what (path_not_found_exception w) = some w
std_what (no_region_selected_exception w) = some w
std_what (wrong_enum_value_exception w) = some w
std_what (websocket_exception w) = some w
std_what (message_exception w) = some w
std_what (poco_timeout w) = some w
std_what (poco_websocket w) = some w
std_what (poco_message w) = some w
std_what (poco_other w) = some w
std_what (filesystem_error w) = some w
std_what (out_of_range w) = some w
std_what (std_other w) = some w
std_what foreign = none
