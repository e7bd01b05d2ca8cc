-- ===== src/Notifier.antt =====
-- internal/notifier/notifier.go and internal/repository/redis/broadcaster.go: what leaves the
-- system, as a message with its kind, its subject and its target, and as the request that is posted;
-- the requests are built in Notifier/Requests.
pub mod Requests
pub mod Secrets
use sentinelix_backend.Base.{ℕ, String, Option, ◌∷◌, leb, str_eq, if◌then◌else◌}
use sentinelix_backend.Domain.Errors.{ok, err, unknown_channel, bad_status}
use sentinelix_backend.Domain.Alert.{AlertRule}
use sentinelix_backend.Domain.Event.{Issue}
use sentinelix_backend.Domain.Monitor.{Monitor}
use sentinelix_backend.Notifier.Requests.{
  Outgoing, send_email, send_slack, send_monitor_down_email, send_monitor_down_slack,
}
use sentinelix_backend.Base.Int.{ℤ}
use sentinelix_backend.World.{Act, Message, alert, monitor_down, broadcast, exec, fail, trip, ◌>>◌}

-- httpClient.Do, and the test on the answer's status: a request that is refused has left, too.
unfoldable pub post : Outgoing → Message → Act (Unit {0})
unfolding trip
post req msg = trip >> λ w.
    let v = record w { requests = req ∷ w.requests } in
    if leb 300 (w.http_status w.calls)
    then (err bad_status, v)
    else (ok tt, record v { sent = msg ∷ w.sent })

abbrev pub dispatch : String → Outgoing → Outgoing → Message → Act (Unit {0})
dispatch channel email slack msg =
    if str_eq channel "email"
    then post email msg
    else if str_eq channel "slack"
    then post slack msg
    else fail unknown_channel

-- MultiNotifier.Notify
unfoldable pub notify : AlertRule → Issue → Act (Unit {0})
unfolding post
notify rule issue w =
    dispatch rule.channel (send_email w.notifier rule.channel_target issue)
      (send_slack w.notifier rule.channel_target issue) (alert rule.id issue.id rule.channel_target)
      w

-- MultiNotifier.NotifyMonitorDown, with the count of failures that the use case gives
unfoldable pub notify_monitor_down : Monitor → ℤ → Act (Unit {0})
unfolding post
notify_monitor_down m failures w =
    dispatch m.channel (send_monitor_down_email w.notifier m.channel_target m failures)
      (send_monitor_down_slack w.notifier m.channel_target m failures)
      (monitor_down m.id m.channel_target) w

-- Broadcaster.Publish. `none` is the empty project id.
unfoldable pub publish : Option ℕ → String → ℕ → Act (Unit {0})
unfolding trip
publish room event id = exec λ w. record w { sent = broadcast room event id ∷ w.sent }
