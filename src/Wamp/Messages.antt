-- ===== src/Wamp/Messages.antt =====
-- The texts that subscribe, unsubscribe and call send.
pub mod Reading
use rito.Common.{ℕ, List, [], ◌∷◌, ◌++◌, Bytes, codes}
use rito.Common.Decimal.{to_string}

pub data WampMessageType : Type 0 where
  call call_result call_error subscribe unsubscribe event : WampMessageType

-- `static_cast<int>`
abbrev pub number : WampMessageType → ℕ
number call = 2
number call_result = 3
number call_error = 4
number subscribe = 5
number unsubscribe = 6
number event = 8

unfoldable pub subscribe_message : Bytes → Bytes
unfolding to_string
subscribe_message name =
    codes "[" ++ (to_string (number subscribe) ++ (codes ", \"" ++ (name ++ codes "\"")))

unfoldable pub unsubscribe_message : Bytes → Bytes
unfolding to_string
unsubscribe_message name =
    codes "[" ++ (to_string (number unsubscribe) ++ (codes ", \"" ++ (name ++ codes "\"")))

-- `call` with no arguments for the function
unfoldable pub call_message : Bytes → Bytes → Bytes
unfolding to_string
call_message identifier function =
    codes "["
    ++ (to_string (number subscribe)
        ++ (codes ", \"" ++ (identifier ++ (codes "\", \"" ++ (function ++ codes "\"]")))))

-- The fold over the arguments, of which there is one at least.
unfoldable pub argument_list : Bytes → List Bytes → Bytes
argument_list arg [] = codes ", \"" ++ (arg ++ codes "\"")
argument_list arg (next ∷ args) = (codes ", \"" ++ (arg ++ codes "\"")) ++ argument_list next args

-- `call` with arguments
unfoldable pub call_with_message : Bytes → Bytes → Bytes → List Bytes → Bytes
unfolding to_string argument_list
call_with_message identifier function arg args =
    codes "["
    ++ (to_string (number call)
        ++ (codes ", \""
            ++ (identifier
                ++ (codes "\", \""
                    ++ (function ++ (codes "\"" ++ (argument_list arg args ++ codes "]")))))))
