-- ===== src/Fees/Repository.antt =====
-- class FeeRepository (app/modules/fees/repository.py): each query is a function of the tables, each
-- INSERT and UPDATE an action that the constraints of app/modules/fees/models.py may refuse.
mod Labels
mod Listings
mod Queries
mod Statements
unfoldable pub use Labels.{programme_display, section_display, year_level_label}
unfoldable pub use Listings.*
unfoldable pub use Queries.*
unfoldable pub use Statements.*
