-- ===== src/Auth/Answer.antt =====
-- core/internal/auth/result.go: the reading of an answer. The decoding of JSON is a parameter; where it
-- fails, the answer is none.
use smart_srun.Prelude.{
  Bool, true, false, ◌||◌, not, Option, none, some, List, [], ◌∷◌, ◌++◌, if◌then◌else◌, any, elem,
  is_empty, Bytes, codes,
}
use smart_srun.Prelude.Texts.{Folding, contains_text, trim_left, trim_right}
use smart_srun.Domain.Binding.{AuthState}
use smart_srun.Domain.Errors.{ErrorCode}
use smart_srun.Auth.Identity.{Identity, nobody, same_account}

-- A value, or the code of an error, where it has one (`CodeOf`).
pub data Reply {ℓ} (A : Type ℓ) : Type ℓ where
  ok : A → Reply A
  err : Option ErrorCode → Reply A

-- `gatewayAnswer`: `result_value` is the text of the field as it arrived.
pub record GatewayAnswer : Type 0 where
  pub error : Bytes
  pub error_msg : Bytes
  pub client_ip : Bytes
  pub online_ip : Bytes
  pub user_name : Bytes
  pub domain : Bytes
  pub result_value : Bytes

pub record Result : Type 0 where
  pub state : AuthState
  pub already_online : Bool
  pub gateway_code : Bytes
  pub gateway_message : Bytes
  pub identity : Bytes
  pub client_ip : Bytes

-- The bytes of the markers that are not ASCII: two words for "already online", and two for "not online".
abbrev online_word : Bytes
online_word = 0xe5 ∷ 0xb7 ∷ 0xb2 ∷ 0xe5 ∷ 0x9c ∷ 0xa8 ∷ 0xe7 ∷ 0xba ∷ 0xbf ∷ []

abbrev not_yet_online_word : Bytes
not_yet_online_word = 0xe6 ∷ 0x9c ∷ 0xaa ∷ 0xe5 ∷ 0x9c ∷ 0xa8 ∷ 0xe7 ∷ 0xba ∷ 0xbf ∷ []

abbrev not_online_word : Bytes
not_online_word = 0xe4 ∷ 0xb8 ∷ 0x8d ∷ 0xe5 ∷ 0x9c ∷ 0xa8 ∷ 0xe7 ∷ 0xba ∷ 0xbf ∷ []

unfoldable pub already_online_markers : List Bytes
already_online_markers =
    codes "ip_already_online_error"
    ∷ codes "already online"
    ∷ codes "already_online"
    ∷ codes "e2620"
    ∷ online_word
    ∷ []

unfoldable pub offline_markers : List Bytes
offline_markers =
    codes "not_online_error" ∷ codes "not_online" ∷ not_yet_online_word ∷ not_online_word ∷ []

module _ (folding : Folding) where
  -- `firstNonEmpty`.
  unfoldable pub first_non_empty : List Bytes → Bytes
  first_non_empty [] = []
  first_non_empty (v ∷ vs) =
      let rest = first_non_empty vs in
      if is_empty (folding.trim_space v) then rest else folding.trim_space v

  -- `gatewayAnswer.code`.
  unfoldable pub code_of : GatewayAnswer → Bytes
  code_of a =
      if is_empty (folding.trim_space a.error)
      then trim_left (b'"' ∷ []) (trim_right (b'"' ∷ []) a.result_value)
      else folding.trim_space a.error

  -- `gatewayAnswer.identity`.
  unfoldable pub identity_of : GatewayAnswer → Bytes
  identity_of a =
      let name = folding.trim_space a.user_name in
      let realm = folding.trim_space a.domain in
      if is_empty name || (is_empty realm || elem b'@' name) then name else name ++ (b'@' ∷ realm)

  unfoldable pub is_ok : Bytes → Bool
  is_ok code = folding.equal_fold (folding.trim_space code) (codes "ok")

  unfoldable pub is_already_online : Bytes → Bytes → Bool
  is_already_online code message =
      any (contains_text (folding.to_lower (code ++ (b' ' ∷ message)))) already_online_markers

  unfoldable pub is_confirmed_offline : Bytes → Bytes → Bool
  is_confirmed_offline code message =
      any
        (contains_text
          (folding.to_lower (folding.trim_space code ++ (b' ' ∷ folding.trim_space message))))
        offline_markers

  -- The state that `interpret` gives a code and a message.
  unfoldable pub judged : Bytes → Bytes → AuthState × Bool
  judged code message =
      if is_ok code
      then (AuthState.accepted, false)
      else if is_already_online code message
      then (AuthState.unknown, true)
      else (AuthState.rejected, false)

  -- `interpret`.
  unfoldable pub interpret : Option GatewayAnswer → Reply Result
  interpret none = Reply.err (some ErrorCode.protocol_invalid)
  interpret (some a) = Reply.ok (record {
    state = (judged (code_of a) (folding.trim_space a.error_msg)).0;
    already_online = (judged (code_of a) (folding.trim_space a.error_msg)).1;
    gateway_code = code_of a;
    gateway_message = folding.trim_space a.error_msg;
    identity = identity_of a;
    client_ip = first_non_empty (a.client_ip ∷ a.online_ip ∷ []);
  })

  -- `readIdentity`.
  unfoldable pub read_identity : Option GatewayAnswer → Bytes → Reply Identity
  read_identity none expected = Reply.err (some ErrorCode.protocol_invalid)
  read_identity (some a) expected =
      if is_confirmed_offline (code_of a) a.error_msg
      then Reply.ok nobody
      else if not (is_empty (identity_of a))
      then Reply.ok (record {
        present = true;
        username = identity_of a;
        session_username = folding.trim_space a.user_name;
        client_ip = first_non_empty (a.client_ip ∷ a.online_ip ∷ []);
        matches_expected = same_account folding (identity_of a) expected;
      })
      else if is_ok (code_of a) || is_empty (code_of a)
      then Reply.ok nobody
      else Reply.err (some ErrorCode.protocol_invalid)
