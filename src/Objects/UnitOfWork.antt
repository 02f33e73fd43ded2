-- ===== src/Objects/UnitOfWork.antt =====
-- The unit of work of internal/repository/transaction.go, and what its functions are given.
use go_auth_refresh_template.Base.{String, Option}
use go_auth_refresh_template.Domain.{Uuid, OtpOptions, RefreshToken, ResetToken, Otp}
use go_auth_refresh_template.World.{Env, Action}
use go_auth_refresh_template.Repository.Transaction
use go_auth_refresh_template.Objects.Queries.{Querier}
use go_auth_refresh_template.Objects.Sqlc
use go_auth_refresh_template.Objects.Sqlc.User.{new_sqlc_user_repository}
use go_auth_refresh_template.Objects.Sqlc.RefreshToken.{new_sqlc_refresh_token_repository}
use go_auth_refresh_template.Objects.Sqlc.ResetToken.{new_sqlc_reset_token_repository}
use go_auth_refresh_template.Objects.Sqlc.Otp.{new_sqlc_otp_repository}

pub record UserTransactionRepository : Type 0 where
  pub update_password : Uuid → String → Action (Unit {0})

pub record ResetTokenTransactionRepository : Type 0 where
  pub consume : String → Action (Option ResetToken)

pub record RefreshTokenTransactionRepository : Type 0 where
  pub save : RefreshToken → Action (Unit {0})
  pub consume : Uuid → Action String
  pub delete_by_user_id : Uuid → Action (Unit {0})

pub record OtpTransactionRepository : Type 0 where
  pub invalidate_by_identifier : String → Action (Unit {0})
  pub save : Otp → Action (Unit {0})

pub record Repositories : Type 0 where
  pub user_repository : UserTransactionRepository
  pub reset_token_repository : ResetTokenTransactionRepository
  pub refresh_token_repository : RefreshTokenTransactionRepository
  pub otp_repository : OtpTransactionRepository

-- `UnitOfWork`. What `fn` assigns to the variables of its caller is its value here.
pub record UnitOfWork : Type 1 where
  pub exec : {A : Type 0} → (Repositories → Action A) → Action A

-- `unitOfWork`, whose connection is in the World.
pub record UnitOfWorkStruct : Type 0 where
  pub queries : Querier
  pub otp_options : OtpOptions

module _ (env : Env) where
  -- The repositories on the queries of a transaction, as the interfaces that the function uses.
  abbrev pub repositories : Querier → OtpOptions → Repositories
  repositories queries otp_options =
      let user = new_sqlc_user_repository queries in
      let reset_token = new_sqlc_reset_token_repository queries in
      let refresh_token = new_sqlc_refresh_token_repository queries in
      let otp = new_sqlc_otp_repository queries otp_options in
      record {
        user_repository = record { update_password = Sqlc.User.update_password user };
        reset_token_repository = record { consume = Sqlc.ResetToken.consume reset_token };
        refresh_token_repository = record {
          save = Sqlc.RefreshToken.save env refresh_token;
          consume = Sqlc.RefreshToken.consume env refresh_token;
          delete_by_user_id = Sqlc.RefreshToken.delete_by_user_id env refresh_token;
        };
        otp_repository = record {
          invalidate_by_identifier = Sqlc.Otp.invalidate_by_identifier otp;
          save = Sqlc.Otp.save otp;
        };
      }

  -- `Exec`, by the transaction of Repository.Transaction. The queries of the transaction,
  -- `u.queries.WithTx(tx)`, are the same record as `u.queries` here: whether a statement runs in the
  -- transaction is said by the world, so a repository left outside it is not told apart.
  abbrev pub exec : UnitOfWorkStruct → {A : Type 0} → (Repositories → Action A) → Action A
  exec u fn = Transaction.exec env (fn (repositories u.queries u.otp_options))

  abbrev pub new_unit_of_work : Querier → OtpOptions → UnitOfWork
  new_unit_of_work queries otp_options = record {
    exec = exec (record { queries = queries; otp_options = otp_options });
  }
