-- ===== src/Server/Session/Auth.antt =====
-- The subscriptions of src/server/session.rs.
use cixrs.Base.{ℕ, ◌≡◌, refl, Option}
use cixrs.Base.{◌==◌, ==_iff, Bool, some, none}
use cixrs.Run.{ok}
use cixrs.Server.Messages.{EngineMessage}
use cixrs.Server.Table.{find, insert, remove, find-insert, find-remove}
use cixrs.Server.Wal.{Codec, WalError}
use cixrs.Server.Session.{code}
use cixrs.Server.Session.{ServerContext, subscribed, already_subscribed, drop_subscription}
use cixrs.Server.Session.Requests.{subscribe_user}

module _ {Time : Type 0} (codec : Codec) (fault : ℕ → Option WalError)
    (takes : EngineMessage → Bool) where
  -- A user who is not subscribed subscribes once: the client is then the user's, a second request is
  -- refused and changes nothing, and dropping the subscription ends it.
  pub subscribe_user-once :
      (c : ServerContext Time) (user client : ℕ) (feed : Option ℕ)
      → find ◌==◌ user c.sub_map ≡ none
      → (c' : ServerContext Time) × (subscribe_user codec fault takes user (some client) c
          ≡ ok (subscribed user) c')
        × (find ◌==◌ user c'.sub_map ≡ some client)
        × (subscribe_user codec fault takes user feed c' ≡ ok (code already_subscribed) c')
        × ((c'' : ServerContext Time) × (drop_subscription user c' ≡ ok tt c'')
            × (find ◌==◌ user c''.sub_map ≡ none))
  unfolding subscribe_user drop_subscription
  subscribe_user-once c user client feed h =
      let t = insert ◌==◌ user client c.sub_map in
      let found = find-insert ◌==◌ ==_iff user client c.sub_map in
      (
        record c { sub_map = t },
        rw (subscribe_user, h) refl,
        found,
        rw (subscribe_user, found) refl,
        (record c { sub_map = remove ◌==◌ user t }, refl, find-remove ◌==◌ ==_iff user t),
      )
