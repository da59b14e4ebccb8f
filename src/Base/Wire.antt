-- ===== src/Base/Wire.antt =====
-- Values written xs text and read back, for the tests of code that relies on a round trip of JSON.
use Prim.Native.Nat.{ℕ, zero, suc}
use Prim.Native.String.{String}
use Prim.Native.Char.{Char, code}
use mathlib.Core.Path.{◌≡◌, refl, ap}
use mathlib.Core.Bool.{Bool, true, false}
use mathlib.Core.Option.{Option, none, some}
use mathlib.Core.List.{List, [], ◌∷◌}
use grag.Base.Tests.{◌==◌, if◌then◌else◌}
use grag.Base.Lists.{length}
use grag.Base.Values.{Value, null, flag, int, negative, str, other}

-- What is written in front of a text is read from it.
pub record Wire (A : Type 0) : Type 0 where
  pub print : A → String → String
  pub parse : String → Option (A × String)
  pub again : (a : A) (rest : String) → parse (print a rest) ≡ some (a, rest)

abbrev print_nat : ℕ → String → String
print_nat zero rest = String.◌∷◌ "." rest
print_nat (suc n) rest = String.◌∷◌ "x" (print_nat n rest)

abbrev one_more : Option (ℕ × String) → Option (ℕ × String)
one_more none = none
one_more (some (n, rest)) = some (suc n, rest)

abbrev parse_nat : String → Option (ℕ × String)
parse_nat String.[] = none
parse_nat (String.◌∷◌ c s) =
    let rest = one_more (parse_nat s) in if code c == 46 then some (0, s) else rest

pub nat_again : (n : ℕ) (rest : String) → parse_nat (print_nat n rest) ≡ some (n, rest)
nat_again zero rest = refl
nat_again (suc n) rest = ap one_more (nat_again n rest)

abbrev pub nats : Wire ℕ
nats = record { print = print_nat; parse = parse_nat; again = nat_again }

abbrev parse_char : String → Option (Char × String)
parse_char String.[] = none
parse_char (String.◌∷◌ c s) = some (c, s)

abbrev pub characters : Wire Char
characters = record {
  print = λ c rest. String.◌∷◌ c rest;
  parse = parse_char;
  again = λ c rest. refl;
}

abbrev then_parse : {A B : Type 0} → Option (A × String) → (A → String → Option B) → Option B
then_parse none k = none
then_parse (some (a, rest)) k = k a rest

-- A type whose values another type can stand for
abbrev pub via :
    {A B : Type 0} (to : A → B) (from : B → A) → ((a : A) → from (to a) ≡ a) → Wire B → Wire A
via to from back w = record {
  print = λ a rest. w.print (to a) rest;
  parse = λ s. then_parse (w.parse s) (λ b rest. some (from b, rest));
  again = λ a rest. rw (w.again (to a) rest, back a) refl;
}

abbrev pub both : {A B : Type 0} → Wire A → Wire B → Wire (A × B)
both v w = record {
  print = λ p rest. v.print p.0 (w.print p.1 rest);
  parse = λ s. then_parse (v.parse s) (λ a t. then_parse (w.parse t) (λ b u. some ((a, b), u)));
  again = λ p rest. rw (v.again p.0 (w.print p.1 rest), w.again p.1 rest) refl;
}

module _ {A : Type 0} (w : Wire A) where
  abbrev print_items : List A → String → String
  print_items [] rest = rest
  print_items (a ∷ xs) rest = w.print a (print_items xs rest)

  abbrev parse_items : ℕ → String → Option (List A × String)
  parse_items zero s = some ([], s)
  parse_items (suc n) s =
      then_parse (w.parse s) (λ a t. then_parse (parse_items n t) (λ xs u. some (a ∷ xs, u)))

  pub items_again :
      (xs : List A) (rest : String)
      → parse_items (length xs) (print_items xs rest) ≡ some (xs, rest)
  items_again [] rest = refl
  items_again (a ∷ xs) rest = rw (w.again a (print_items xs rest), items_again xs rest) refl

  abbrev pub lists : Wire (List A)
  lists = record {
    print = λ xs rest. print_nat (length xs) (print_items xs rest);
    parse = λ s. then_parse (parse_nat s) parse_items;
    again = λ xs rest. rw (nat_again (length xs) (print_items xs rest)) (items_again xs rest);
  }

  abbrev to_list : Option A → List A
  to_list none = []
  to_list (some a) = a ∷ []

  abbrev of_list : List A → Option A
  of_list [] = none
  of_list (a ∷ xs) = some a

  pub list_back : (o : Option A) → of_list (to_list o) ≡ o
  list_back none = refl
  list_back (some a) = refl

  abbrev pub options : Wire (Option A)
  options = via to_list of_list list_back lists

abbrev to_chars : String → List Char
to_chars String.[] = []
to_chars (String.◌∷◌ c s) = c ∷ to_chars s

abbrev of_chars : List Char → String
of_chars [] = String.[]
of_chars (c ∷ cs) = String.◌∷◌ c (of_chars cs)

pub chars_back : (s : String) → of_chars (to_chars s) ≡ s
chars_back String.[] = refl
chars_back (String.◌∷◌ c s) = ap (String.◌∷◌ c) (chars_back s)

abbrev pub texts : Wire String
texts = via to_chars of_chars chars_back (lists characters)

abbrev bit : Bool → ℕ
bit true = 1
bit false = 0

abbrev of_bit : ℕ → Bool
of_bit zero = false
of_bit (suc n) = true

pub bit_back : (b : Bool) → of_bit (bit b) ≡ b
bit_back true = refl
bit_back false = refl

abbrev pub flags : Wire Bool
flags = via bit of_bit bit_back nats

abbrev to_parts : Value → ℕ × (ℕ × String)
to_parts null = (0, (0, ""))
to_parts (flag b) = (1, (bit b, ""))
to_parts (int n) = (2, (n, ""))
to_parts (negative n) = (3, (n, ""))
to_parts (str s) = (4, (0, s))
to_parts (other b s) = (5, (bit b, s))

abbrev of_parts : ℕ × (ℕ × String) → Value
of_parts (zero, (n, s)) = null
of_parts (suc zero, (n, s)) = flag (of_bit n)
of_parts (suc (suc zero), (n, s)) = int n
of_parts (suc (suc (suc zero)), (n, s)) = negative n
of_parts (suc (suc (suc (suc zero))), (n, s)) = str s
of_parts (suc (suc (suc (suc (suc k)))), (n, s)) = other (of_bit n) s

pub parts_back : (v : Value) → of_parts (to_parts v) ≡ v
parts_back null = refl
parts_back (flag true) = refl
parts_back (flag false) = refl
parts_back (int n) = refl
parts_back (negative n) = refl
parts_back (str s) = refl
parts_back (other true s) = refl
parts_back (other false s) = refl

abbrev pub any_values : Wire Value
any_values = via to_parts of_parts parts_back (both nats (both nats texts))

-- The text of a value alone, and its value, with another where the text is of none
abbrev pub encode : {A : Type 0} → Wire A → A → String
encode w a = w.print a ""

abbrev or_else : {A : Type 0} → A → Option (A × String) → A
or_else a none = a
or_else a (some (b, rest)) = b

abbrev pub decode : {A : Type 0} → Wire A → A → String → A
decode w a s = or_else a (w.parse s)

pub decode-encode : {A : Type 0} (w : Wire A) (d a : A) → decode w d (encode w a) ≡ a
decode-encode w d a = rw (w.again a "") refl
