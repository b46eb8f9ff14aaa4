-- ===== src/Program/Feed.antt =====
-- The program against the receiver with its messages handed to the broker.
use serial.Base.{ℕ, ◌≡◌, refl, sym, ap, ◌∙◌, List, [], ◌∷◌, ◌++◌}
use serial.Text.{Text}
use serial.Protocol.{put_read_data, read_all}
use serial.Mqtt.{Mosquitto, Mqtt, mqtt_send, deliver}
use serial.Program.{Program, put_byte, feed}

module _ (lib : Mosquitto) where
  deliver-append :
      (s : Mqtt lib) (xs ys : List Text)
      → deliver lib s (xs ++ ys) ≡ deliver lib (deliver lib s xs) ys
  unfolding deliver
  deliver-append s [] ys = refl
  deliver-append s (x ∷ xs) ys = deliver-append (mqtt_send lib s x).0 xs ys

  pub feed_nil : (p : Program lib) → feed lib p [] ≡ p
  unfolding feed
  feed_nil p = refl

  pub feed-append :
      (p : Program lib) (xs ys : List ℕ) → feed lib p (xs ++ ys) ≡ feed lib (feed lib p xs) ys
  unfolding feed
  feed-append p [] ys = refl
  feed-append p (x ∷ xs) ys = feed-append (put_byte lib p x) xs ys

  -- A stream leaves the receiver as if there were no broker, whatever the broker answers, and the
  -- broker gets exactly the messages of the receiver, in their order.
  pub feed-read_all :
      (p : Program lib) (bs : List ℕ)
      → feed lib p bs ≡ record {
        receiver = (read_all p.receiver bs).0;
        mqtt = deliver lib p.mqtt (read_all p.receiver bs).1;
      }
  unfolding feed put_byte read_all
  feed-read_all p [] = unfold deliver in refl
  feed-read_all p (b ∷ bs) =
      let r = (put_read_data p.receiver b).0 in
      let sent = (put_read_data p.receiver b).1 in
      feed-read_all (put_byte lib p b) bs
      ∙ ap (λ m. record { receiver = (read_all r bs).0; mqtt = m })
          (sym (deliver-append p.mqtt sent (read_all r bs).1))
