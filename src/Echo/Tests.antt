-- ===== src/Echo/Tests.antt =====
-- The echo client gives a payload to the echo server and prints what comes back.
use dsystem_homework.Base.{pos, ◌≡◌, refl, true, [], ◌∷◌, In, lookup, insert, delete}
use dsystem_homework.Lsp.Message.{Bytes, new_ack, new_data}
use dsystem_homework.Lsp.Status.{new_params}
use dsystem_homework.Lsp.Endpoint.{
  reads_channel, falls_through, on_data, forget, send_next, window_open, min_un_acked, save, drain,
  collect,
}
use dsystem_homework.Lsp.Client
use dsystem_homework.Lsp.Client.{new_client}
use dsystem_homework.Lsp.Info
use dsystem_homework.Lsp.Info.{new_info, handle_client}
use dsystem_homework.Lsp.Flow.{whole}
use dsystem_homework.Lsp.Link.{
  Link, Step, start, client_hears, client_turns, server_passes, info_hears, info_turns,
}
use dsystem_homework.Echo.{
  Echo, background, types, gets, server_takes, server_echoes, EchoReach, here, next, begin,
}
use dsystem_homework.Echo.Answers.{echo_answers}

abbrev opened : Link
opened = start new_params new_params (pos 73) "localhost:9000"

abbrev greeting : Bytes
greeting = 104 ∷ 105 ∷ []

goes_on :
    {e f : Echo} {m : Link}
    → EchoReach e f
    → Step f.link m
    → m.written_up ≡ f.link.written_up
    → m.written_down ≡ f.link.written_down
    → m.read_down ≡ f.link.read_down
    → EchoReach e (record f { link = m })
goes_on r step up down read = next r (
    background step
      (record { written_up_same = up; written_down_same = down; read_down_same = read }))

answered : (e : Echo) × EchoReach (begin opened) e
unfolding start new_client new_info Client.handle Client.receive Client.write Client.on_ack
    Client.read Client.idle lookup insert delete forget send_next window_open min_un_acked
    handle_client Info.receive Info.idle on_data save drain collect
answered =
    let learnt =
      goes_on
        (goes_on here (client_hears (new_ack (pos 73) (pos 0)) (whole In.here)) refl refl refl)
        (client_turns reads_channel) refl refl refl in
    let sent =
      goes_on (next learnt (types greeting refl)) (client_turns falls_through) refl refl refl in
    let heard =
      goes_on
        (goes_on sent
          (info_hears (new_data (pos 73) (pos 1) (pos 2) greeting) (whole (In.there In.here))) refl
          refl refl)
        (info_turns reads_channel) refl refl refl in
    let echoed =
      goes_on (next (next heard (server_takes greeting refl refl)) (server_echoes greeting refl))
        (server_passes greeting [] refl refl) refl refl refl in
    let back =
      goes_on
        (goes_on (goes_on echoed (info_turns falls_through) refl refl refl)
          (client_hears (new_data (pos 73) (pos 1) (pos 2) greeting)
            (whole (In.there (In.there In.here))))
          refl refl refl)
        (client_turns reads_channel) refl refl refl in
    (_, next back (gets true greeting _ refl refl))

echo_answers_example : answered.0.link.read_down ≡ answered.0.link.written_up
unfolding answered
echo_answers_example =
    echo_answers new_params new_params (pos 73) "localhost:9000" answered.0 answered.1 refl

answered_one : answered.0.link.read_down ≡ greeting ∷ []
unfolding answered
answered_one = refl
