-- ===== src/Cs101/Exchange.antt =====
-- One transaction of the client of cs101/client.go with the server of cs101/server.go over a line
-- that may lose what it carries.
pub mod Settling
pub mod Lossless
pub mod Delivery
pub mod InOrder
use go_iecp.Shared.{ℕ, Bool, true, false, List, [], ◌∷◌, Option, none, some}
use mathlib.Core.Option
use go_iecp.Cs101.Frame.{Frame}
use go_iecp.Cs101.Link.{LinkError}
use go_iecp.Cs101.Server.{Server}
use go_iecp.Cs101.Server.Secondary.Repeated.{serve}
use go_iecp.Cs101.Client.{Client}
use go_iecp.Cs101.Client.Run.{t1_timeout, receive}

-- What the line does with a frame of the client and the response to it.
pub data Passage : Type 0 where
  request_lost response_lost passed : Passage

-- The line takes the frames of the client.
abbrev pub taken : Client → Client
taken c = record c { send_frame = [] }

unfoldable pub receive_all : List Frame → Client → Client
receive_all [] c = c
receive_all (f ∷ rest) c = receive_all rest (receive f c)

-- An attempt with the frame `f`. The response timeout strikes when the line is silent. `none`: the
-- server's loop is stuck.
unfoldable pub carry : ℕ → Passage → Frame → Client → Server → Option (Client × Server)
carry now request_lost f c s = some ((t1_timeout c).0, s)
carry now response_lost f c s =
    Option.map (λ (o : Server × List Frame). ((t1_timeout c).0, o.0)) (serve now f s)
carry now passed f c s =
    Option.map (λ (o : Server × List Frame). (receive_all o.1 c, o.0)) (serve now f s)

unfoldable pub attempt : ℕ → Passage → List Frame → Client → Server → Option (Client × Server)
attempt now way [] c s = some (c, s)
attempt now way (f ∷ rest) c s = carry now way f (taken c) s

abbrev pub then_on {ℓ} : {A : Type ℓ} → Option A → (A → Option A) → Option A
then_on none f = none
then_on (some a) f = f a

-- What the line does with the frames of the client, one after the other.
unfoldable pub exchange : ℕ → List Passage → Client × Server → Option (Client × Server)
exchange now [] (c, s) = some (c, s)
exchange now (way ∷ rest) (c, s) = then_on (attempt now way c.send_frame c s) (exchange now rest)
