-- ===== src/ChatServlet.antt =====
-- chat_servlet.cpp and friend_servlet.cpp: doRequest and the handlers, which do nothing yet.
use windnet_game.Prelude.{Bool, true, false, none, some, String, find, string_key}
use windnet_game.Prelude.Outcome.{Outcome, ok}
use windnet_game.Dispatch.Routes
use windnet_game.Dispatch.Routes.{ChatHandler, FriendHandler, chat_chain, friend_chain}

module _ {ℓ} {W : Type ℓ} where
  unfoldable pub do_chat : W → Outcome (Bool × W)
  do_chat w = ok (true, w)

  unfoldable pub call_chat_handler : ChatHandler → W → Outcome (Bool × W)
  call_chat_handler Routes.on_chat w = do_chat w

  -- ChatServlet::doRequest
  unfoldable pub do_chat_request : String → W → Outcome (Bool × W)
  do_chat_request type w = elim (find type chat_chain) [
    | none ↦ ok (false, w)
    | some handler ↦ call_chat_handler handler w
  ]

  unfoldable pub do_add_friend : W → Outcome (Bool × W)
  do_add_friend w = ok (true, w)

  unfoldable pub do_add_black_list : W → Outcome (Bool × W)
  do_add_black_list w = ok (true, w)

  unfoldable pub do_remove_friend : W → Outcome (Bool × W)
  do_remove_friend w = ok (true, w)

  unfoldable pub call_friend_handler : FriendHandler → W → Outcome (Bool × W)
  call_friend_handler Routes.on_add_friend w = do_add_friend w
  call_friend_handler Routes.on_add_black_list w = do_add_black_list w
  call_friend_handler Routes.on_remove_friend w = do_remove_friend w

  -- FriendServlet::doRequest
  unfoldable pub do_friend_request : String → W → Outcome (Bool × W)
  do_friend_request type w = elim (find type friend_chain) [
    | none ↦ ok (false, w)
    | some handler ↦ call_friend_handler handler w
  ]
