-- ===== src/TargetSet/Ipv4/Tests.antt =====
-- The theorem on the order of targets, with lists for leeloo's iterators and two orders of two ports.
use nodescan.Prelude.{ℕ, zero, suc, ◌≡◌, refl, List, [], ◌∷◌, length, ap, sym, true, false, arith}
use nodescan.Target.Tests.{word_port}
use nodescan.TargetSet.Ipv4.{AddressApi, PortsApi, Ipv4TargetSet, next_target}
use nodescan.Host.{PortListApi, HostSm, new_host_sm}
use nodescan.TargetSet.Ipv4.Hosts.{PortListLaws, finish_ports, finish_ports-done_at_last}
use nodescan.TargetSet.Queue.{pop_front}
use nodescan.TargetSet.Ipv4.Walk.{Iterators, is_empty, upcoming, Gives, next_target-pop}

abbrev head_or_zero : List ℕ → ℕ
head_or_zero [] = 0
head_or_zero (x ∷ xs) = x

abbrev rest : List ℕ → List ℕ
rest [] = []
rest (x ∷ xs) = xs

abbrev order : ℕ → List ℕ × ℕ
order zero = (80 ∷ 443 ∷ [], 1)
order (suc g) = (443 ∷ 80 ∷ [], 0)

abbrev address_lists : AddressApi (List ℕ)
address_lists = record {
  end = is_empty;
  next = rest;
  get_current = head_or_zero;
  get_current_step = length;
  step_done = λ i a. a;
}

abbrev port_lists : PortsApi (List ℕ) ℕ ℕ
port_lists = record {
  init = order;
  end = is_empty;
  call = λ r. (head_or_zero r, rest r);
  size_original = λ r. 2;
}

order-some : (g : ℕ) → (p : ℕ) × (ps : List ℕ) × ((order g).0 ≡ p ∷ ps)
order-some zero = (80, 443 ∷ [], refl)
order-some (suc g) = (443, 80 ∷ [], refl)

abbrev list_iterators : Iterators address_lists port_lists
list_iterators = record {
  addresses = λ a. a;
  left = λ r. r;
  v4-end = λ a. refl;
  v4-next = λ a ip ips e. ap rest e;
  v4-current = λ a ip ips e. ap head_or_zero e;
  ports-end = λ r. refl;
  ports-call = λ r p ps e. (ap head_or_zero e, ap rest e);
}

abbrev half : Ipv4TargetSet (List ℕ) (List ℕ) ℕ
half = record { rand_v4 = 7 ∷ 9 ∷ []; rand_port = []; generator = 1 }

next_target-pop_example :
    Gives list_iterators
      (next_target address_lists port_lists half)
      (pop_front (upcoming list_iterators half)).0
      (pop_front (upcoming list_iterators half)).1
next_target-pop_example = next_target-pop list_iterators half order-some (omega arith)

-- The list of ports, as a list.
abbrev port_list : PortListApi (List ℕ) ℕ
port_list = record {
  add = λ p l. p ∷ l;
  aggregate = λ l. l;
  size = length;
  intervals_size = length;
}

abbrev port_list_laws : PortListLaws port_list
port_list_laws = record {
  Holds = λ ps l. ps ≡ l;
  holds-add = λ p ps l same absent. ap (λ qs. p ∷ qs) same;
  holds-aggregate = λ ps l same. same;
  size-holds = λ ps l same. ap length (sym same);
}

abbrev host : HostSm (List ℕ) (Unit {0})
host = new_host_sm [] 3 7

abbrev later : Ipv4TargetSet (List ℕ) (List ℕ) ℕ
later = record { rand_v4 = 9 ∷ []; rand_port = 80 ∷ []; generator = 0 }

finish_ports-done_at_last_example :
    (finish_ports address_lists port_lists port_list 7 ((443, half) ∷ (80, later) ∷ []) host).0
    ≡ (false, half) ∷ (true, later) ∷ []
finish_ports-done_at_last_example =
    finish_ports-done_at_last address_lists port_lists port_list port_list_laws 7 2 []
      ((443, half) ∷ (80, later) ∷ []) host refl
      (tt, refl, (((λ e. absurd (omega arith)), tt), refl, tt)) refl
