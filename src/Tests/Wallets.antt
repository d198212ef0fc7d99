-- ===== src/Tests/Wallets.antt =====
-- The theorems on wallets, applied to a hold that is made, settled in part and released in part.
use ufirst_backend.Base.{refl, none, List, [], ◌∷◌, arith}
use ufirst_backend.Base.Int.{pos, ◌+ℤ◌}
use ufirst_backend.Wallet.Ledger.{IsSolvent}
use ufirst_backend.Wallet.Books.{IsBooked}
use ufirst_backend.Wallet.Operations.{Movement}
use ufirst_backend.Tests.Data.{ctx, later, database}

abbrev movements : List Movement
movements =
    Movement.reserve ctx 1 (pos 50) "authorization" 32
    ∷ Movement.settle ctx 1 (pos 200) "clearing" 40 none
    ∷ Movement.release ctx 1 (pos 100) "reversal" 31
    ∷ Movement.debit later 1 (pos 700) "fee" 41 none
    ∷ Movement.credit later 21
    ∷ []

database-IsBooked : IsBooked database
unfolding ◌+ℤ◌
database-IsBooked = ((refl, tt), (refl, tt))

database-IsSolvent : IsSolvent database
database-IsSolvent = ((omega arith, omega arith), tt)
