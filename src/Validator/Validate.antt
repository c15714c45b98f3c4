-- ===== src/Validator/Validate.antt =====
-- validator/validator.go, `validateFunc`, `Validate` and `ValidateWithSymbols`.
use ssac.Base.{List, [], ◌∷◌, ◌++◌, some, flat_map}
use ssac.Parser.Types.{ServiceFunc}
use ssac.Validator.Errors.{ValidationError}
use ssac.Validator.Required.{validate_required_fields}
use ssac.Validator.Flow.{validate_variable_flow}
use ssac.Validator.Stale.{validate_stale_response}
use ssac.Validator.Rules.{validate_reserved_source_conflict, validate_subscribe_rules}
use ssac.Validator.Guard.{validate_fk_reference_guard}
use ssac.Validator.Symbols.{SymbolTable}
use ssac.Validator.Models.{validate_model}
use ssac.Validator.Requests.{validate_request, validate_query_usage, validate_pagination_type}
use ssac.Validator.CallTypes.{validate_call_input_types}
use ssac.Validator.Reserved.{validate_go_reserved_words}

unfoldable pub validate_func : ServiceFunc → List ValidationError
validate_func sf =
    validate_required_fields sf
    ++ (validate_variable_flow sf
        ++ (validate_stale_response sf
            ++ (validate_reserved_source_conflict sf
                ++ (validate_subscribe_rules sf ++ validate_fk_reference_guard sf))))

unfoldable pub validate : List ServiceFunc → List ValidationError
unfolding validate_func
validate [] = []
validate (sf ∷ funcs) = validate_func sf ++ validate funcs

-- The checks of one function against the symbol table.
unfoldable pub cross_errors : SymbolTable → ServiceFunc → List ValidationError
unfolding validate_model validate_request validate_query_usage validate_pagination_type
    validate_call_input_types
cross_errors st sf =
    validate_model sf st
    ++ (validate_request sf st
        ++ (validate_query_usage sf (some st)
            ++ (validate_pagination_type sf (some st) ++ validate_call_input_types sf (some st))))

-- `ValidateWithSymbols`, for a table that is there
unfoldable pub validate_with_symbols : List ServiceFunc → SymbolTable → List ValidationError
unfolding validate cross_errors validate_go_reserved_words
validate_with_symbols funcs st =
    validate funcs
    ++ (flat_map (cross_errors st) funcs ++ validate_go_reserved_words funcs (some st))
