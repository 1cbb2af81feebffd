-- ===== src/Tests/Terminal.antt =====
-- A first login to a firewall whose key the user has confirmed, and one terminal that opens.
use verkkokyyla.Opnsense.Activity.Counts.{count}
use verkkokyyla.Opnsense.Terminal.HostKey.{AreAllowed, connect-AreAllowed}
use verkkokyyla.Opnsense.Terminal.Slots.Capacity.{capacity}
use verkkokyyla.Opnsense.Terminal.Slots.Steps.{
  World, idle, Steps, begins, inserts, done, then_step, live,
}
use verkkokyyla.Opnsense.Terminal.Slots.{reserve, insert_terminal, max_terminals}
use verkkokyyla.Opnsense.Terminal.{
  Answers, Profile, success, connect, check_server_key, handshake_with, authenticate, pin_first,
  send_password, set_ssh_host_key,
}
use verkkokyyla.Prelude.Int.{pos}
use verkkokyyla.Prelude.Results.{ok}
use verkkokyyla.Prelude.Text.{Text, codes}
use verkkokyyla.Prelude.{◌+◌, ◌≤◌, ◌≡◌, refl, true, [], ◌∷◌, none, some, arith, length}

abbrev key : Text
key = codes "SHA256:abc"

abbrev firewall : Profile
firewall = record { ssh_port = pos 22; ssh_host_key = none }

abbrev first_login : Answers
first_login = record {
  profile = some firewall;
  presented = some key;
  handshake = true;
  auth = success;
  pin_stored = true;
  channel_opened = true;
  pty_granted = true;
  shell_granted = true;
}

logged_in : connect (some key) first_login ≡ (send_password ∷ set_ssh_host_key key ∷ [], ok tt)
unfolding connect check_server_key handshake_with authenticate pin_first
logged_in = refl

connect-AreAllowed_example :
    AreAllowed (some key) first_login firewall (connect (some key) first_login).0
connect-AreAllowed_example = connect-AreAllowed (some key) first_login firewall refl

abbrev opened : World
opened = record idle {
  inner = record { active = (70, 1) ∷ []; starting = 1 };
  connecting = 0;
  marking = (70, 1) ∷ [];
}

opening : Steps idle opened
unfolding reserve insert_terminal
opening = then_step (then_step done (begins _ refl)) (inserts 70 1 (omega arith) refl)

capacity_example :
    (length opened.inner.active + opened.connecting ≤ max_terminals)
    × (opened.inner.starting ≡ opened.connecting + length opened.marking + opened.releasing)
    × (count 1 opened.activity.terminals + live 1 opened.marking
        ≡ live 1 opened.inner.active + opened.leaving 1)
capacity_example = capacity 1 opening
