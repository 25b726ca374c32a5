-- ===== src/Notifier/Mailer.antt =====
-- services/blockchain-notifier/src/mailer.js: `notify` with its deduplication, and `watchUptime` of
-- src/index.js on top of it. Whether a mail goes out is an argument.
pub mod Laws
use gemba_blockchain.Base.{
  Bool, List, Map, Option, Text, [], codes, erase, false, if◌then◌else◌, insert, lookup, ltb, none,
  not, some, text_eq, true, ℕ, ◌&&◌, ◌++◌, ◌+◌, ◌∷◌,
}

pub data Delivery : Type 0 where
  delivered suppressed threw : Delivery

abbrev pub LastSent : Type 0
LastSent = Map Text ℕ

abbrev pub in_cooldown : ℕ → ℕ → Option ℕ → Bool
in_cooldown cooldown now none = false
-- a time 0 is falsy
in_cooldown cooldown now (some prev) = ltb 0 prev && ltb now (prev + cooldown)

unfoldable pub notify : ℕ → Bool → LastSent → Text → ℕ → LastSent × Delivery
notify cooldown mail_up sent key now =
    if in_cooldown cooldown now (lookup key sent)
    then (sent, suppressed)
    else (insert key now sent, if mail_up then delivered else threw)

unfoldable pub reset_key : LastSent → Text → LastSent
reset_key sent key = erase key sent

-- `state.uptime` and `lastSent`.
pub record Watch : Type 0 where
  pub uptime : Map Text Bool
  pub sent : LastSent

abbrev pub was_ok : Option Bool → Bool
was_ok none = true
was_ok (some b) = b

abbrev pub down_key : Text → Text
down_key url = codes "down-" ++ url

abbrev pub up_key : Text → Text
up_key url = codes "up-" ++ url

pub record Mail : Type 0 where
  pub key : Text
  pub delivery : Delivery

-- Behind `await notify`: a mail that throws leaves the state as it was and ends the loop.
unfoldable pub conclude :
    Watch → Text → Bool → Text → LastSent × Delivery → Watch × Option Mail × Bool
conclude w url ok key (sent, threw) =
    (record w { sent = sent }, some (record { key = key; delivery = threw }), false)
conclude w url ok key (sent, d) = (
  record { uptime = insert url ok w.uptime; sent = sent },
  some (record { key = key; delivery = d }),
  true,
)

-- One url of the loop: the watch, the mail that was tried, and whether the loop goes on.
unfoldable pub watch_url : ℕ → Bool → ℕ → Watch → Text → Bool → Watch × Option Mail × Bool
watch_url cooldown mail_up now w url ok =
    let before = was_ok (lookup url w.uptime) in
    if not ok && before
    then conclude w url ok (down_key url) (notify cooldown mail_up w.sent (down_key url) now)
    else if ok && not before
    then conclude w url ok (up_key url)
        (notify cooldown mail_up (reset_key w.sent (down_key url)) (up_key url) now)
    else (record w { uptime = insert url ok w.uptime }, none, true)

-- `watchUptime` over the probed urls.
unfoldable pub watch_uptime : ℕ → (Text → Bool) → ℕ → Watch → List (Text × Bool) → Watch
watch_uptime cooldown mail_up now w [] = w
watch_uptime cooldown mail_up now w ((url, ok) ∷ probes) =
    let (w', mail, goes_on) = watch_url cooldown (mail_up url) now w url ok in
    let rest = watch_uptime cooldown mail_up now w' probes in if goes_on then rest else w'
