-- ===== src/Datasource/Request.antt =====
-- internal/datasource/interface.go: filters, sort orders, pages and requests.
use mountain_king.Prelude.{ℕ, Option, List, Bytes}
use mountain_king.Prelude.Int.{ℤ}
use mountain_king.Value.{Value, Fields}

-- The operators of the `iota` list; `unknown` is any other `int`.
pub data FilterOperator : Type 0 where
  eq neq gt gte lt lte like is_in not_in is_null is_not_null : FilterOperator
  unknown : ℕ → FilterOperator

pub data SortDirection : Type 0 where
  asc desc : SortDirection

pub record FilterCondition : Type 0 where
  pub field : Bytes
  pub operator : FilterOperator
  pub value : Value

pub record OrderByClause : Type 0 where
  pub field : Bytes
  pub direction : SortDirection

pub record PaginationParams : Type 0 where
  pub first : Option ℤ
  pub after : Option Bytes
  pub offset : Option ℤ
  pub limit : Option ℤ

pub record QueryRequest : Type 0 where
  pub fields : List Bytes
  pub filters : List FilterCondition
  pub order_by : List OrderByClause
  pub pagination : Option PaginationParams
  pub options : Fields
