-- ===== src/Notifier/Mailer/Laws.antt =====
-- A repeated alert is held back, and an alert whose mail fails is lost.
use gemba_blockchain.Base.{
  ==_ne, ==_refl, Bool, Text, ap, arith, false, insert, lookup, lookup-erase, lookup-insert,
  lookup-insert_self, some, text_eq, true, ℕ, ◌+◌, ◌<◌, ◌∙◌, ◌≡◌, ◌≢◌,
}
use gemba_blockchain.Notifier.Mailer.{
  delivered, suppressed, threw, LastSent, in_cooldown, notify, reset_key, Watch, was_ok, down_key,
  conclude, watch_url,
}

-- After an alert is tried, the same one is held back for the whole cooldown, and every other key is
-- as it was; after a reset it goes out at once.
pub notify-repeated :
    (cooldown now later : ℕ) (mail_up again : Bool) (sent : LastSent) (key other : Text)
    → 0 < now
    → later < now + cooldown
    → (notify cooldown mail_up sent key now).1 ≢ suppressed
    → key ≢ other
    → let after = (notify cooldown mail_up sent key now).0 in
      ((notify cooldown again after key later).1 ≡ suppressed)
      × (lookup other after ≡ lookup other sent)
      × ((notify cooldown true (reset_key after key) key later).1 ≡ delivered)
unfolding notify reset_key
notify-repeated cooldown now later mail_up again sent key other pos soon tried ne = ground (
  arith,
  lookup-insert key key now sent,
  lookup-insert key other now sent,
  lookup-erase key key (insert key now sent),
  ==_refl key,
  ==_ne key other ne,
)

watch_url_threw :
    (cooldown now : ℕ) (w : Watch) (url : Text)
    → was_ok (lookup url w.uptime) ≡ true
    → in_cooldown cooldown now (lookup (down_key url) w.sent) ≡ false
    → watch_url cooldown false now w url false ≡ (
      record { uptime = w.uptime; sent = insert (down_key url) now w.sent },
      some (record { key = down_key url; delivery = threw }),
      false,
    )
unfolding watch_url notify conclude
watch_url_threw cooldown now w url up free =
    rw (up, free, watch_url, notify, conclude) (rw (free, notify))

watch_url_held :
    (cooldown now : ℕ) (w : Watch) (url : Text)
    → was_ok (lookup url w.uptime) ≡ true
    → in_cooldown cooldown now (lookup (down_key url) w.sent) ≡ true
    → watch_url cooldown true now w url false ≡ (
      record { uptime = insert url false w.uptime; sent = w.sent },
      some (record { key = down_key url; delivery = suppressed }),
      true,
    )
unfolding watch_url notify conclude
watch_url_held cooldown now w url up held =
    rw (up, held, watch_url, notify, conclude) (rw (held, notify))

-- When a service goes down and the mail of that round fails, the alert is lost: in a round within
-- the cooldown, with the service still down and the mail working, nothing is sent, and the service
-- counts as reported.
pub failed_mail_loses_alert :
    (cooldown now later : ℕ) (w : Watch) (url : Text)
    → was_ok (lookup url w.uptime) ≡ true
    → in_cooldown cooldown now (lookup (down_key url) w.sent) ≡ false
    → 0 < now
    → later < now + cooldown
    → let failed = watch_url cooldown false now w url false in
      let next = watch_url cooldown true later failed.0 url false in
      (failed.1 ≡ some (record { key = down_key url; delivery = threw }))
      × (next.1 ≡ some (record { key = down_key url; delivery = suppressed }))
      × (lookup url next.0.uptime ≡ some false)
failed_mail_loses_alert cooldown now later w url up free pos soon =
    let k = down_key url in
    let first = watch_url_threw cooldown now w url up free in
    let again : lookup k (insert k now w.sent) ≡ some now = lookup-insert_self k now w.sent in
    let held : in_cooldown cooldown later (lookup k (insert k now w.sent)) ≡ true =
      rw again (ground arith) in
    let w' : Watch = record { uptime = w.uptime; sent = insert k now w.sent } in
    let second : watch_url cooldown true later (watch_url cooldown false now w url false).0 url
          false
        ≡ (
          record { uptime = insert url false w.uptime; sent = insert k now w.sent },
          some (record { key = down_key url; delivery = suppressed }),
          true,
        ) =
      ap (λ x. watch_url cooldown true later x.0 url false) first
      ∙ watch_url_held cooldown later w' url up held in
    (
      ap (λ x. x.1) first,
      ap (λ x. x.1) second,
      ap (λ x. lookup url x.0.uptime) second ∙ lookup-insert_self url false w.uptime,
    )
